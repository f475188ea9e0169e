-- ===== src/ClientArgParser/Parses.antt =====
-- parseClientArgs as a whole, on what argparse makes of the command line: the checks of argparse that
-- the program does not give it itself come as their error text.
use drop_file.ClientArgParser.{
  ClientArgs, Options, client_args, receive, remove_trailing_slashes, send,
}
use drop_file.Outcome.{client_arg_parser_exception, runtime_error}
use drop_file.Result.{Result, err, ok}
use drop_file.Common.{
  ℕ, ◌≡◌, refl, sym, ap, ◌∙◌, ◌≢◌, ◌⊎◌, inl, inr, Bool, true, false, not, ◌&&◌, Option, none, some,
  ◌++◌, if◌then◌else◌, Bool-cases, Bytes, text, bytes_eq, bytes_eq_refl, bytes_eq→eq,
}

abbrev pub default_client_port : ℕ
default_client_port = 8080

abbrev pub default_server_domain : Bytes
default_server_domain = text "balitohome.duckdns.org"

-- What is given on the command line: the two arguments, and the options, if they are there.
pub record CommandLine : Type 0 where
  pub given_action : Bytes
  pub given_file_or_code : Bytes
  pub given_port : Option ℕ
  pub given_domain : Option Bytes
  pub allows_self_signed : Bool

abbrev pub given_or {ℓ} : {A : Type ℓ} → A → Option A → A
given_or a none = a
given_or a (some given) = given

-- The values of the options, with the defaults that are declared.
unfoldable pub options_of : CommandLine → Options
options_of c = record {
  action_text = c.given_action;
  file_or_code = c.given_file_or_code;
  port_value = given_or default_client_port c.given_port;
  domain_name = given_or default_server_domain c.given_domain;
  allow_self_signed_cert = c.allows_self_signed;
}

-- The function that argparse calls on the action.
unfoldable pub check_action : Bytes → Result Bytes
check_action value =
    if not (bytes_eq value (text "send")) && not (bytes_eq value (text "receive"))
    then err (
        runtime_error (
          text "Incorrect value of action argument: "
          ++ (value ++ text ". Expected send or receive.")))
    else ok value

-- catch (const std::runtime_error&)
abbrev pub rethrown {ℓ} : {A : Type ℓ} → Result A → Result A
rethrown (ok a) = ok a
rethrown (err (runtime_error what)) = err (client_arg_parser_exception what)
rethrown (err e) = err e

abbrev pub with_action : CommandLine → Result Bytes → Result Options
with_action c (ok action) = ok (options_of c)
with_action c (err e) = err e

abbrev pub parsed_options : CommandLine ⊎ Bytes → Result Options
parsed_options (inl c) = with_action c (check_action c.given_action)
parsed_options (inr what) = err (runtime_error what)

abbrev pub args_of : Result Options → Result ClientArgs
args_of (ok o) = ok (client_args o)
args_of (err e) = err e

-- `inr` is an error of argparse's own.
unfoldable pub parse_client_args : CommandLine ⊎ Bytes → Result ClientArgs
parse_client_args command_line = args_of (rethrown (parsed_options command_line))

abbrev pub SendArgs : CommandLine → ClientArgs → Type 0
SendArgs c args =
    (args.action ≡ send)
    × (args.file_to_send_path ≡ some (remove_trailing_slashes c.given_file_or_code))
    × (args.receive_code ≡ none)

abbrev pub ReceiveArgs : CommandLine → ClientArgs → Type 0
ReceiveArgs c args =
    (args.action ≡ receive)
    × (args.file_to_send_path ≡ none)
    × (args.receive_code ≡ some c.given_file_or_code)

-- What a command line asks for.
pub record IsAsked (c : CommandLine) (args : ClientArgs) : Type 0 where
  pub action :
      ((c.given_action ≡ text "send") × SendArgs c args)
      ⊎ ((c.given_action ≡ text "receive") × ReceiveArgs c args)
  pub port : args.port ≡ given_or 8080 c.given_port
  pub domain : args.server_domain_name ≡ given_or (text "balitohome.duckdns.org") c.given_domain
  pub verifies : args.verify_cert ≡ not c.allows_self_signed

-- It returns what the command line asks for, or throws a ClientArgParserException, and only where the
-- action is neither send nor receive.
abbrev pub Parses : CommandLine → Result ClientArgs → Type 0
Parses c (ok args) = IsAsked c args
Parses c (err (client_arg_parser_exception what)) =
    (c.given_action ≢ text "send") × (c.given_action ≢ text "receive")
Parses c (err e) = ⊥

pub differs : (given wanted : Bytes) → bytes_eq given wanted ≡ false → given ≢ wanted
differs given wanted e same =
    let k : true ≡ false =
      sym (bytes_eq_refl wanted) ∙ ap (λ x. bytes_eq x wanted) (sym same) ∙ e in
    cc

module _ (c : CommandLine) where
  send-IsAsked :
      bytes_eq c.given_action (text "send") ≡ true → IsAsked c (client_args (options_of c))
  unfolding options_of client_args
  send-IsAsked e = record {
    action = inl (bytes_eq→eq c.given_action (text "send") e, (rw e refl, rw e refl, rw e refl));
    port = rw e refl;
    domain = rw e refl;
    verifies = rw e refl;
  }

  receive-IsAsked :
      bytes_eq c.given_action (text "send") ≡ false
      → bytes_eq c.given_action (text "receive") ≡ true
      → IsAsked c (client_args (options_of c))
  unfolding options_of client_args
  receive-IsAsked other e = record {
    action = inr (
      bytes_eq→eq c.given_action (text "receive") e,
      (rw other refl, rw other refl, rw other refl),
    );
    port = rw other refl;
    domain = rw other refl;
    verifies = rw other refl;
  }

  -- Where argparse itself finds no error, parseClientArgs returns exactly what the command line asks
  -- for, with the defaults of the options, or throws a ClientArgParserException, and that only where
  -- the action is neither send nor receive. The certificate is verified exactly if -a is not given.
  pub parse_client_args_lem : Parses c (parse_client_args (inl c))
  unfolding parse_client_args check_action
  parse_client_args_lem = elim (Bool-cases (bytes_eq c.given_action (text "send"))) [
    | inl sends ↦ rw sends (send-IsAsked sends)
    | inr other ↦ elim (Bool-cases (bytes_eq c.given_action (text "receive"))) [
      | inl receives ↦ rw (other, receives) (receive-IsAsked other receives)
      | inr neither ↦
          rw (other, neither)
            (
              differs c.given_action (text "send") other,
              differs c.given_action (text "receive") neither,
            )
    ]
  ]
