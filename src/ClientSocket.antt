-- ===== src/ClientSocket.antt =====
-- include/client/ClientSocket.hpp and src/client/ClientSocket.cpp: which certificates the client
-- accepts, and how it connects. Threads is about the
-- thread that runs the io_context.
pub mod Threads
use drop_file.Network.{Stream}
use drop_file.Common.{
  ℕ, ◌≡◌, refl, ap, ◌∙◌, inl, inr, Bool, true, false, not, ◌||◌, List, [], ◌∷◌, ◌++◌, if◌then◌else◌,
  Bool-cases, Bytes, text, bytes_eq,
}
use drop_file.Result.{err, Result, ◌>>=◌}
use drop_file.Outcome.{Exception, socket_exception}
use drop_file.ClientArgParser.{client_args, ClientArgs, Options}

pub data VerifyMode : Type 0 where
  verify_none verify_peer verify_fail_if_no_peer_cert : VerifyMode

-- How a connection verifies: its mode, and the callback, on whether OpenSSL found the certificate to
-- be in order. The mode of the context counts for what is made of it later.
pub record Verification : Type 0 where
  pub socket_mode : VerifyMode
  pub context_mode : VerifyMode
  pub default_verify_paths : Bool
  pub verify_callback : Bool → Bool

-- What the client calls of boost::asio, with the addresses that the resolver gives.
pub record Resolver : Type 1 where
  pub Endpoint : Type 0
  pub resolve : Bytes → Bytes → Result (List Endpoint)
  pub connect_to : Endpoint → Result Stream
  pub handshake : Verification → Stream → Result Stream

-- The name of the subject is only logged.
unfoldable pub verify_certificate : Bool → Bool
verify_certificate preverified = preverified

unfoldable pub verification : Bool → Verification
verification verify_cert =
    if verify_cert
    then record {
      socket_mode = verify_peer;
      context_mode = verify_none;
      default_verify_paths = true;
      verify_callback = verify_certificate;
    }
    else record {
      socket_mode = verify_none;
      context_mode = verify_fail_if_no_peer_cert;
      default_verify_paths = false;
      verify_callback = λ _. true;
    }

abbrev pub not_found : Bytes → Bytes → Exception
not_found host port = socket_exception (text "Did not find " ++ (host ++ (text ":" ++ port)))

module _ (boost : Resolver) where
  abbrev pub connect_first : Verification → Bytes → Bytes → List boost.Endpoint → Result Stream
  connect_first v host port [] = err (not_found host port)
  connect_first v host port (endpoint ∷ endpoints) = do
    stream ← boost.connect_to endpoint
    boost.handshake v stream

  unfoldable pub connect : Verification → Bytes → Bytes → Result Stream
  connect v host port = do endpoints ← boost.resolve host port; connect_first v host port endpoints

  -- createClientSocket of apps/drop-file.cpp, and the constructor of ClientSocket.
  unfoldable pub create_client_socket : (ℕ → Bytes) → ClientArgs → Result Stream
  create_client_socket to_string args =
      connect (verification args.verify_cert) args.server_domain_name (to_string args.port)

-- The certificates that the client accepts, as the options say.
unfoldable pub accepts : Options → Bool → Bool
accepts o preverified = (verification ((client_args o).verify_cert)).verify_callback preverified

verify_cert-client_args : (o : Options) → (client_args o).verify_cert ≡ not o.allow_self_signed_cert
unfolding client_args
verify_cert-client_args o = elim (Bool-cases (bytes_eq o.action_text (text "send"))) [
  | inl e ↦ rw e refl
  | inr e ↦ rw e refl
]

verify_callback-verification :
    (allow preverified : Bool)
    → (verification (not allow)).verify_callback preverified ≡ (preverified || allow)
unfolding verification verify_certificate
verify_callback-verification true true = refl
verify_callback-verification true false = refl
verify_callback-verification false true = refl
verify_callback-verification false false = refl

-- The callback accepts a certificate exactly if OpenSSL found it to be in order, or the user allowed
-- self-signed ones; nothing else of it counts.
pub accepts_lem :
    (o : Options) (preverified : Bool)
    → accepts o preverified ≡ (preverified || o.allow_self_signed_cert)
unfolding accepts
accepts_lem o preverified =
    ap (λ b. (verification b).verify_callback preverified) (verify_cert-client_args o)
    ∙ verify_callback-verification o.allow_self_signed_cert preverified
