-- ===== src/Lease/HolderKey.antt =====
-- src/server/modules/lease/holder-key.ts: the pseudonymous key of a seat's holder. The salted
-- SHA-256 is a parameter; a signal hash is a number, in the order in which its text sorts.
use Prim.Native.String.{String}
use text.Mathlib.Text.{◌==◌ as str_eq}
use license_srv.Prelude.{ℕ, Option, none, some, List, [], ◌∷◌, leb, if◌then◌else◌, dedup, sort_by}
use license_srv.Store.{ConcurrencyScope, session, machine, user}

-- What is hashed beside the scope and the salt: a reference, or the signals joined by "|".
pub data Canonical : Type 0 where
  of_reference : String → Canonical
  of_signals : List ℕ → Canonical

-- `sha256(salt:scope:canonical)` of the server's salt.
abbrev pub Digest : Type 0
Digest = ConcurrencyScope → Canonical → ℕ

unfoldable pub canonical_machine : List ℕ → List ℕ
canonical_machine signals = sort_by leb (dedup signals)

unfoldable pub reference_key : Digest → ConcurrencyScope → String → Option ℕ
reference_key digest scope reference =
    if str_eq reference "" then none else some (digest scope (of_reference reference))

-- `none` is the `HolderKeyError` of a missing input.
unfoldable pub derive_holder_key :
    Digest → ConcurrencyScope → (reference : String) → (signals : List ℕ) → Option ℕ
unfolding reference_key canonical_machine
derive_holder_key digest machine reference [] = none
derive_holder_key digest machine reference (s ∷ signals) =
    some (digest machine (of_signals (canonical_machine (s ∷ signals))))
derive_holder_key digest session reference signals = reference_key digest session reference
derive_holder_key digest user reference signals = reference_key digest user reference
