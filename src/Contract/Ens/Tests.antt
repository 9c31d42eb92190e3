-- ===== src/Contract/Ens/Tests.antt =====
-- Setting the content hash of a name, at concrete answers: a resolver, that it supports content
-- hashes, and a transaction.
use rust_web.Prelude.{ℕ, String, List, [], ◌∷◌, true, none, some, str_eq, if◌then◌else◌}
use rust_web.Rpc.{number}
use rust_web.Accounts.Tests.{crypto}
use rust_web.Session.{done, TestTransport, test_transport}
use rust_web.Session.Log.{at}
use rust_web.Types.Block.Tests.{formats}
use rust_web.Types.Request.Tests.{wire, write_bytes}
use rust_web.Contract.Tokens.{Token, address, bool}
use rust_web.Contract.Abi.{Abi}
use rust_web.Contract.Call.{Contract}
use rust_web.Contract.Call.Tests.{answers}
use rust_web.Contract.Ens.{Ens}
use rust_web.Contract.Ens.Resolved.{set_content_hash}
use rust_web.Contract.Ens.Resolver

abbrev outputs : String → List ℕ → List Token
outputs func answer = if str_eq func "resolver" then address answer ∷ [] else bool true ∷ []

abbrev abi : Abi
abi = record {
  function = λ func. done (record {
    encode_input = λ params. done (1 ∷ []);
    decode_output = λ answer. done (outputs func answer);
  });
  constructor = none;
}

abbrev ens : Ens
ens = record {
  registry = record { address = 3 ∷ []; abi = abi };
  resolver_abi = abi;
  reverse_abi = abi;
  normalize = λ name. some (b'a' ∷ []);
}

abbrev swarm : List ℕ
swarm = 228 ∷ 1 ∷ []

abbrev start : TestTransport
start = at [] (write_bytes (9 ∷ []) ∷ write_bytes (1 ∷ []) ∷ number 7 ∷ [])

abbrev after : TestTransport
after = (set_content_hash crypto formats wire answers test_transport ens (5 ∷ []) "a" swarm start).0
