-- ===== src/Contract/Ens/Supported.antt =====
-- src/contract/ens/eth_ens.rs: what is checked before a resolver is used.
use rust_web.Prelude.{ℕ, List, ◌∷◌, ◌⊎◌, ◌≡◌}
use rust_web.Session.{Session}
use rust_web.Contract.Call.{Contract}
use rust_web.Contract.Ens.Resolver
use rust_web.Contract.Ens.{Ens}

-- The hash has the codec of Swarm, 0xe4, or of IPFS, 0xe3.
abbrev pub IsContentHash : List ℕ → Type 0
IsContentHash hash =
    (first : ℕ) × (rest : List ℕ) × (hash ≡ first ∷ rest) × ((first ≡ 0xe3) ⊎ (first ≡ 0xe4))
