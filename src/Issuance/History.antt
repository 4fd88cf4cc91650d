-- ===== src/Issuance/History.antt =====
-- Histories of lifecycle actions (src/server/modules/issuance/lifecycle.ts), each one committed or
-- rolled back under `withTenant` before the next.
use Prim.Native.String.{String}
use mathlib.Core.Path.{subst}
use license_srv.Prelude.{
  ℕ, ◌≤◌, ◌≡◌, refl, sym, ap, ◌∙◌, inl, inr, Bool, true, false, some, List, [], ◌∷◌, arith, leb,
  ◌==◌, All, All-of, All-imp, find-update_where, find-eq-some, Option-cases, Bool-cases,
}
use license_srv.Store.{License, LicenseStatus, active, suspended, revoked, Db, with_tenant, commit}
use license_srv.Lease.Acquire.{is_license}
use license_srv.Issuance.Lifecycle.{find_license, is_terminal}
use license_srv.Issuance.Machine.{
  Action, revoke, suspend, reinstate, transfer, Verdict, keep, change, refuse, verdict,
  transfer_verdict, run, outcome, run_refines, run_absent,
}

pub record Request : Type 0 where
  pub actor : String
  pub id : ℕ
  pub action : Action

unfoldable pub perform : List Request → Db → Db
unfolding run with_tenant
perform [] db = db
perform (r ∷ rs) db = perform rs (with_tenant (run r.actor r.id r.action) db).1

-- A verdict changes no id.
abbrev KeepsId : Verdict → Type 0
KeepsId (change action after set) = (l : License) → (set l).id ≡ l.id
KeepsId keep = Unit
KeepsId (refuse code status) = Unit

transfer_verdict-KeepsId : (customer : ℕ) (t a k : Bool) → KeepsId (transfer_verdict customer t a k)
unfolding transfer_verdict
transfer_verdict-KeepsId customer true a k = tt
transfer_verdict-KeepsId customer false true k = tt
transfer_verdict-KeepsId customer false false false = tt
transfer_verdict-KeepsId customer false false true = λ l. refl

verdict-KeepsId : (a : Action) (s : LicenseStatus) (n : ℕ) (k : Bool) → KeepsId (verdict a s n k)
unfolding verdict
verdict-KeepsId revoke active n k = λ l. refl
verdict-KeepsId revoke suspended n k = λ l. refl
verdict-KeepsId revoke revoked n k = tt
verdict-KeepsId suspend active n k = λ l. refl
verdict-KeepsId suspend suspended n k = tt
verdict-KeepsId suspend revoked n k = tt
verdict-KeepsId reinstate active n k = tt
verdict-KeepsId reinstate suspended n k = λ l. refl
verdict-KeepsId reinstate revoked n k = tt
verdict-KeepsId (transfer limit customer) s n k =
    transfer_verdict-KeepsId customer (is_terminal s) (leb limit n) k

-- A verdict on the license `l` keeps the property `P`.
abbrev Preserves : (License → Type 0) → License → Verdict → Type 0
Preserves P l (change action after set) = P (set l)
Preserves P l keep = Unit
Preserves P l (refuse code status) = Unit

abbrev Keeps : (License → Type 0) → Request → Type 0
Keeps P r =
    (l : License) (k : Bool) → P l → Preserves P l (verdict r.action l.status l.transfer_count k)

one_id : (a b c : ℕ) → (a == b) ≡ true → (a == c) ≡ true → b ≡ c
one_id a b c h k = ground arith

abbrev Holds : (License → Type 0) → ℕ → Db → Type 0
Holds P c d = (l : License) × (find_license c d ≡ some l) × P l

module _ (P : License → Type 0) (r : Request) (db : Db) (c : ℕ) where
  outcome_step :
      (lic : License) (v : Verdict)
      → find_license r.id db ≡ some lic
      → KeepsId v
      → (P lic → Preserves P lic v)
      → Holds P c db
      → Holds P c (commit db (outcome r.actor r.id db lic v)).1
  unfolding outcome commit
  outcome_step lic keep here ids keeps holds = holds
  outcome_step lic (refuse code status) here ids keeps holds = holds
  outcome_step lic (change action after set) here ids keeps (l, found, p) =
      let moved =
        find-update_where (is_license c) (is_license r.id) set db.licenses
          (λ y. ap (λ n. n == c) (ids y)) found in
      elim (Bool-cases (is_license r.id l)) [
        | inr other ↦ (l, rw other at moved, p)
        | inl own ↦ (
          set l,
          rw own at moved,
          let same : lic ≡ l = cc (
                rw (one_id l.id r.id c own (find-eq-some (is_license c) db.licenses found)) at
                  here) in
              subst (λ x. P (set x)) same (keeps (subst P (sym same) p)),
        )
      ]

  request_step : Keeps P r → Holds P c db → Holds P c (with_tenant (run r.actor r.id r.action) db).1
  unfolding with_tenant
  request_step keeps holds = elim (Option-cases (find_license r.id db)) [
    | inl absent ↦ rw (run_absent r.actor r.id db r.action absent) holds
    | inr (lic, here) ↦
        rw (run_refines r.actor r.id db lic here r.action)
          (outcome_step lic _ here (verdict-KeepsId r.action _ _ _) (keeps lic _) holds)
  ]

module _ (P : License → Type 0) (c : ℕ) where
  perform-Keeps :
      (rs : List Request) (db : Db) → All (Keeps P) rs → Holds P c db → Holds P c (perform rs db)
  unfolding perform
  perform-Keeps [] db keeps holds = holds
  perform-Keeps (r ∷ rs) db (k, ks) holds =
      perform-Keeps rs (with_tenant (run r.actor r.id r.action) db).1 ks
        (request_step P r db c k holds)

verdict_revoked :
    (P : License → Type 0) (x : License) (a : Action) (n : ℕ) (k : Bool)
    → Preserves P x (verdict a revoked n k)
unfolding verdict transfer_verdict
verdict_revoked P x revoke n k = tt
verdict_revoked P x suspend n k = tt
verdict_revoked P x reinstate n k = tt
verdict_revoked P x (transfer limit customer) n k = tt

revoked_stays :
    (a : Action) (l x : License) (k : Bool)
    → l.status ≡ revoked
    → x ≡ l
    → Preserves (λ y. y ≡ l) x (verdict a x.status x.transfer_count k)
revoked_stays a l x k e same =
    let s : revoked ≡ x.status = sym (ap (λ (y : License). y.status) same ∙ e) in
    subst (λ s. Preserves (λ y. y ≡ l) x (verdict a s x.transfer_count k)) s
      (verdict_revoked (λ y. y ≡ l) x a x.transfer_count k)

-- A revoked license is never changed again, whatever lifecycle actions follow.
pub perform-revoked :
    (rs : List Request) (db : Db) (c : ℕ) (l : License)
    → find_license c db ≡ some l
    → l.status ≡ revoked
    → find_license c (perform rs db) ≡ some l
perform-revoked rs db c l found e =
    let (l', found', same) =
      perform-Keeps (λ y. y ≡ l) c rs db
        (All-of _ rs (λ r x k same. revoked_stays r.action l x k e same)) (l, found, refl) in
    rw same at found'

-- How often a license may be transferred by an action.
abbrev limit_of : Action → ℕ
limit_of (transfer limit customer) = limit
limit_of _ = 0

transfer_bounded :
    (customer limit : ℕ) (x : License) (t at_limit k : Bool) (b : ℕ)
    → limit ≤ b
    → at_limit ≡ leb limit x.transfer_count
    → Preserves (λ y. y.transfer_count ≤ b) x (transfer_verdict customer t at_limit k)
unfolding transfer_verdict
transfer_bounded customer limit x true at_limit k b h e = tt
transfer_bounded customer limit x false true k b h e = tt
transfer_bounded customer limit x false false false b h e = tt
transfer_bounded customer limit x false false true b h e = ground arith

verdict_bounded :
    (a : Action) (x : License) (s : LicenseStatus) (k : Bool) (b : ℕ)
    → limit_of a ≤ b
    → x.transfer_count ≤ b
    → Preserves (λ y. y.transfer_count ≤ b) x (verdict a s x.transfer_count k)
unfolding verdict
verdict_bounded revoke x active k b h le = le
verdict_bounded revoke x suspended k b h le = le
verdict_bounded revoke x revoked k b h le = tt
verdict_bounded suspend x active k b h le = le
verdict_bounded suspend x suspended k b h le = tt
verdict_bounded suspend x revoked k b h le = tt
verdict_bounded reinstate x active k b h le = tt
verdict_bounded reinstate x suspended k b h le = le
verdict_bounded reinstate x revoked k b h le = tt
verdict_bounded (transfer limit customer) x s k b h le =
    transfer_bounded customer limit x (is_terminal s) (leb limit x.transfer_count) k b h refl

-- No license is transferred beyond the limit: after any history whose transfers run under limits of
-- at most `b`, a license has been transferred at most `b` times, if that was so before.
pub perform-transfer_count :
    (rs : List Request) (db : Db) (c b : ℕ) (l : License)
    → All (λ r. limit_of (Request.action r) ≤ b) rs
    → find_license c db ≡ some l
    → l.transfer_count ≤ b
    → (l' : License) × (find_license c (perform rs db) ≡ some l') × (l'.transfer_count ≤ b)
perform-transfer_count rs db c b l limits found le =
    perform-Keeps (λ y. y.transfer_count ≤ b) c rs db
      (All-imp _ _ rs (λ r h x k q. verdict_bounded r.action x x.status k b h q) limits)
      (l, found, le)
