-- ===== src/Cli/Seed.antt =====
-- The seed writes no intent.
use lumo.Base.{◌≡◌, refl, String, ◌==◌, Action, ◌>>◌, ◌∙◌, Bool-cases, inl, inr, any, ◌||◌}
use lumo.Base.Stays.{Stays, IsPreorder, Stays-bind}
use lumo.Db.Repo.{Repo, set_rule}
use lumo.Cli.{add_or_ignore, seed}

-- the intents are as they were
pub record SameIntents {E : Type 0} (s t : Repo E) : Type 0 where
  pub intents : t.db.intents ≡ s.db.intents

SameIntents-preorder : {E : Type 0} → IsPreorder (SameIntents {E = E})
SameIntents-preorder = record {
  start = λ s. record { intents = refl };
  chain = λ a b c f g. record { intents = g.intents ∙ f.intents };
}

module _ {E : Type 0} where
  add_or_ignore-SameIntents :
      (name address : String) → Stays SameIntents (add_or_ignore {E = E} name address)
  add_or_ignore-SameIntents name address = record { at_state = λ s. record { intents = by_case s } }
    where
      by_case : (s : Repo E) → (add_or_ignore name address s).1.db.intents ≡ s.db.intents
      by_case s =
          elim (Bool-cases (any (λ q. q.id == s.ids s.minted || q.name == name) s.db.suppliers)) [
            | inl there ↦ rw there refl
            | inr new ↦ rw new refl
          ]

  set_rule-SameIntents : (key value : String) → Stays SameIntents (set_rule {E = E} key value)
  unfolding set_rule
  set_rule-SameIntents key value = record { at_state = λ s. record { intents = refl } }

  then_rule :
      (key value : String) (m : Action (Repo E) (Unit {0}))
      → Stays SameIntents m
      → Stays SameIntents (set_rule key value >> m)
  then_rule key value m h =
      Stays-bind SameIntents-preorder (set_rule key value) _ (set_rule-SameIntents key value) λ _. h

  then_supplier :
      (name address : String) (m : Action (Repo E) (Unit {0}))
      → Stays SameIntents m
      → Stays SameIntents (add_or_ignore name address >> m)
  then_supplier name address m h =
      Stays-bind SameIntents-preorder (add_or_ignore name address) _
        (add_or_ignore-SameIntents name address) λ _. h

  pub seed-SameIntents : Stays SameIntents (seed {E = E})
  unfolding seed
  seed-SameIntents = then_supplier _ _ _ (
      then_supplier _ _ _
        (then_rule _ _ _ (then_rule _ _ _ (then_rule _ _ _ (set_rule-SameIntents _ _)))))
