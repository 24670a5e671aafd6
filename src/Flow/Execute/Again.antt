-- ===== src/Flow/Execute/Again.antt =====
-- A claim of an intent that is made again later.
use lumo.Base.{◌≡◌, refl, false, ◌&&◌, List, [], ◌∷◌, String, ◌==◌, ok, row_count, arith}
use lumo.Db.Rows.{Intent}
use lumo.Db.Queries.{is_proposed}
use lumo.Db.Evolves.{Evolves}
use lumo.Db.Repo.{Repo, claim_escrow}
use lumo.Flow.Execute.Claim.{IsClaimed, IsClaimed-Evolves, claimed_rows, claimed_rows-IsClaimed}

none_left :
    (id : String) (rs : List Intent)
    → IsClaimed id rs
    → row_count (λ r. r.id == id && is_proposed r) rs ≡ 0
none_left id [] l = refl
none_left id (r ∷ rs) (l, ls) = ground (arith, none_left id rs ls)

-- After a call of `claim_escrow`, as long as no row of `intents` appears, disappears, changes its
-- keys or becomes proposed, a further call for the same intent returns False.
pub claim_escrow_once :
    {E : Type 0} (id : String) (s t : Repo E)
    → Evolves (claim_escrow id s).1.db.intents t.db.intents
    → (claim_escrow id t).0 ≡ ok false
unfolding claim_escrow
claim_escrow_once id s t h =
    rw
      (none_left id t.db.intents (
        IsClaimed-Evolves id (claimed_rows id s.db.intents) t.db.intents h
          (claimed_rows-IsClaimed id s.db.intents)))
      refl
