-- ===== src/Activation/History.antt =====
-- Histories of the activation surface (src/server/modules/activation): one committed transaction
-- after another, with what other modules do to licenses between them.
use Prim.Native.String.{String}
use license_srv.Prelude.{ℕ, ◌≤◌, ◌≡◌, inl, inr, Option, some, arith, find}
use license_srv.Store.{License, Db, ok}
use license_srv.Lease.Acquire.{is_license}
use license_srv.Activation.Activate.{
  TokenSigner, Config, ActivateInput, Fresh, ActivationResult, count_active,
}
use license_srv.Activation.Activate.Bind.{activate}
use license_srv.Activation.Deactivate.{DeactivateResult, deactivate}
use license_srv.Activation.Freeing.{deactivate_le}
use license_srv.Activation.Seats.{activate_seats}

-- Other modules leave the activations, and lower no seat limit of a license that they keep.
pub record KeepsLimits (db db' : Db) : Type 0 where
  pub activations : db'.activations ≡ db.activations
  pub limits :
      (c : ℕ) (lic' : License)
      → find (is_license c) db'.licenses ≡ some lic'
      → (lic : License) × (find (is_license c) db.licenses ≡ some lic)
        × (lic.max_activations ≤ lic'.max_activations)

pub data Step (db db' : Db) : Type 0 where
  activation :
      (config : Config) (signer : Option TokenSigner) (fresh : Fresh) (input : ActivateInput)
      (r : ActivationResult)
      → activate config signer fresh input db ≡ (ok r, db')
      → Step db db'
  deactivation :
      (actor : String) (now id : ℕ) (r : DeactivateResult)
      → deactivate actor now id db ≡ ok (r, db')
      → Step db db'
  elsewhere : KeepsLimits db db' → Step db db'

pub data Reach (db : Db) : Db → Type 0 where
  here : Reach db db
  next : {a b : Db} → Reach db a → Step a b → Reach db b

-- No license has more active machines than its seat limit.
unfoldable pub WithinSeats : Db → Type 0
WithinSeats db =
    (c : ℕ) (lic : License)
    → find (is_license c) db.licenses ≡ some lic
    → count_active c db ≤ lic.max_activations

Step-WithinSeats : {a b : Db} → Step a b → WithinSeats a → WithinSeats b
unfolding WithinSeats
Step-WithinSeats {a} {b} (activation config signer fresh input r e) v c lic found =
    let (same, seats) = activate_seats config fresh input a b r c signer e in
    let was : find (is_license c) a.licenses ≡ some lic = rw same at found in
    elim seats [
      | inl kept ↦ omega (arith, kept, v c lic was)
      | inr taken ↦ let one : taken.license ≡ lic = cc (taken.found, was) in rw one at taken.within
    ]
Step-WithinSeats {a} {b} (deactivation actor now id r e) v c lic found =
    let (le, same) = deactivate_le actor now id a b r c e in
    omega (arith, le, v c lic (rw same at found))
Step-WithinSeats {a} {b} (elsewhere k) v c lic' found =
    let (lic, was, more) = k.limits c lic' found in
    let same : count_active c b ≡ count_active c a = unfold count_active in (rw k.activations) in
    omega (arith, more, same, v c lic was)

-- Whatever activations and deactivations follow each other, of any machines, under any
-- configuration, from tables in which every license is within its seat limit, every license stays
-- within it.
pub Reach-WithinSeats : (db db' : Db) → WithinSeats db → Reach db db' → WithinSeats db'
Reach-WithinSeats db db' v here = v
Reach-WithinSeats db db' v (next {a} r st) = Step-WithinSeats st (Reach-WithinSeats db a v r)
