-- ===== src/Applications.antt =====
-- apps/drop-file.cpp: which client runs, and the status that the program exits with. Console output
-- is left out, except the hint about certificates.
use drop_file.Result.{lift}
use drop_file.ClientArgParser.{remove_trailing_slashes, client_args, ClientArgs}
use drop_file.ClientArgParser.Parses.{CommandLine, options_of, parse_client_args}
use drop_file.Common.{ℕ, ◌≡◌, ◌⊎◌, Option, none, some, [], ◌==◌, if◌then◌else◌, Bytes, text}
use drop_file.Outcome.{
  done, thrown, unfinished, Outcome, Action, throw, pure, ◌>>=◌, socket_exception,
  init_session_message_exception, sessions_manager_exception, utils_exception,
  fs_entry_info_exception, drop_file_receive_exception, drop_file_send_exception, zstd_exception,
  archive_manager_exception, client_arg_parser_exception, system_error, undefined, Exception,
}
use drop_file.ClientArgParser

-- The optional has a value, or what reads it is undefined.
abbrev pub value_of {ℓ} : {S : Type ℓ} → Option Bytes → Action S Bytes
value_of none = throw undefined
value_of (some t) = pure t

-- The exit status behind the catch clauses of main, in order; `none` is undefined behaviour.
unfoldable pub exit_status : Exception → Option ℕ
exit_status (client_arg_parser_exception t) = some 1
exit_status (socket_exception t) = some 2
exit_status (init_session_message_exception t) = some 2
exit_status (sessions_manager_exception t) = some 2
exit_status (utils_exception t) = some 2
exit_status (fs_entry_info_exception t) = some 2
exit_status (drop_file_receive_exception t) = some 2
exit_status (drop_file_send_exception t) = some 2
exit_status (zstd_exception t) = some 2
exit_status (archive_manager_exception t) = some 2
exit_status system_error = some 3
exit_status undefined = none
exit_status e = some 4

-- addAdditionalInfo: what is printed for the code of a system_error.
unfoldable pub add_additional_info : ℕ → Bytes
add_additional_info code_value =
    if code_value == 167772294 then text "Try adding '-a' flag, to allow self-signed certs." else []

module _ {ℓ} {S : Type ℓ} where
  abbrev pub exit_with : Option ℕ → Exception → Action S ℕ
  exit_with none e = throw e
  exit_with (some status) e = pure status

  abbrev pub exited : Outcome S (Unit {0}) → Outcome S ℕ
  exited (done _ s) = done 0 s
  exited (thrown e s) = exit_with (exit_status e) e s
  exited unfinished = unfinished

  module _ (send_client receive_client : ClientArgs → Bytes → Action S (Unit {0})) where
    abbrev pub client_of : ClientArgParser.Action → ClientArgs → Action S (Unit {0})
    client_of ClientArgParser.send args = value_of args.file_to_send_path >>= send_client args
    client_of ClientArgParser.receive args = value_of args.receive_code >>= receive_client args

    -- runDropFileClient, on what the two clients do with a path and with a code.
    unfoldable pub run_drop_file_client : ClientArgs → Action S (Unit {0})
    run_drop_file_client args = client_of args.action args

    -- main: its status is the result. `inr` is an error of argparse's own.
    unfoldable pub main : CommandLine ⊎ Bytes → Action S ℕ
    main command_line s =
        exited ((lift (parse_client_args command_line) >>= run_drop_file_client) s)

    -- The sending client ends normally with the path, without the slashes at its end.
    abbrev pub SendEnds : CommandLine → S → S → Type ℓ
    SendEnds c s t =
        send_client (client_args (options_of c)) (remove_trailing_slashes c.given_file_or_code) s
        ≡ done tt t

    -- The receiving client ends normally with the code.
    abbrev pub ReceiveEnds : CommandLine → S → S → Type ℓ
    ReceiveEnds c s t =
        receive_client (client_args (options_of c)) c.given_file_or_code s ≡ done tt t
