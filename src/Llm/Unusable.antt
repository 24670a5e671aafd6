-- ===== src/Llm/Unusable.antt =====
-- What an answer of the model server that cannot be used does to the pipeline.
use lumo.Base.{
  arith, ◌≡◌, refl, ◌⊎◌, inl, inr, true, false, Option, String, Error, ok, err, Bool-cases,
}
use lumo.Models.{PipelineResult}
use lumo.Config.{Config}
use lumo.Injection.{Text}
use lumo.Db.Repo.{Repo}
use lumo.Db.Fresh.{Fresh}
use lumo.Pipeline.Amount.{to_stroops}
use lumo.Pipeline.Guards.{ComputeReceipt}
use lumo.Pipeline.Findings.{Services}
use lumo.Pipeline.Run.{run, examine}
use lumo.Pipeline.Settled.{IsRefusal}
use lumo.Pipeline.Total.{Readable, run-answers}
use lumo.Llm.{LlamaServer, is_handled, empty_invoice, ask, llama_extract}

module _ {S R : Type 0} (server : LlamaServer S R) where
  -- the services of the pipeline with this server, in the state that it is in
  abbrev pub served : {D : Type 0} → S → Services D → Services D
  served world sv = record sv { extract = λ invoice. (llama_extract server invoice world).0 }

  llama_extract-empty :
      (invoice : Text) (world : S) (e : Error)
      → (ask server invoice world).0 ≡ err e
      → is_handled e ≡ true
      → (llama_extract server invoice world).0 ≡ ok empty_invoice
  unfolding llama_extract
  llama_extract-empty invoice world e h k = rw (h, k) refl

  llama_extract-err :
      (invoice : Text) (world : S) (e : Error)
      → (ask server invoice world).0 ≡ err e
      → is_handled e ≡ false
      → (llama_extract server invoice world).0 ≡ err e
  unfolding llama_extract
  llama_extract-err invoice world e h k = rw (h, k) refl

module _ {E D : Type 0} (sv : Services D) where
  run-err :
      (invoice : Text) (config : Config) (cosign : Option String) (receipt : Option ComputeReceipt)
      (e : Error) (s : Repo E)
      → sv.extract invoice ≡ err e
      → run sv invoice config cosign receipt s ≡ (err e, s)
  unfolding run examine
  run-err invoice config cosign receipt e s h = rw h refl

module _ {E D S R : Type 0} (server : LlamaServer S R) (sv : Services D) where
  -- Where the request to the model server, the status of its answer, the answer itself or the
  -- validation of it raises, the rules are readable, the ids to come are fresh and no subscriber
  -- raises: if `extract` handles the exception, `run` returns a refusal, without a plan or an
  -- intent, and the intents stay as they are, under every configuration; if it does not, `run`
  -- raises the exception and leaves the repository as it was.
  pub run-unusable :
      (invoice : Text) (config : Config) (cosign : Option String) (receipt : Option ComputeReceipt)
      (world : S) (e : Error) (s : Repo E)
      → (ask server invoice world).0 ≡ err e
      → Readable (served server world sv) s.db
      → Fresh s
      → ((is_handled e ≡ true)
          × (r : PipelineResult) × ((run (served server world sv) invoice config cosign receipt s).0
              ≡ ok r)
          × IsRefusal r
          × ((run (served server world sv) invoice config cosign receipt s).1.db.intents
              ≡ s.db.intents))
        ⊎ (is_handled e ≡ false)
          × (run (served server world sv) invoice config cosign receipt s ≡ (err e, s))
  unfolding to_stroops
  run-unusable invoice config cosign receipt world e s h a fr =
      let with_server = served server world sv in
      elim (Bool-cases (is_handled e)) [
        | inl yes_ ↦
            (let (r, done, outcome) =
                run-answers with_server invoice config cosign receipt empty_invoice s
                  (llama_extract-empty server invoice world e h yes_) a fr (inr refl) in
              elim outcome [
                | inl (refusal, same) ↦ inl (yes_, r, done, refusal, same)
                | inr (n, found) ↦ absurd (ground arith)
              ])
        | inr not_ ↦ inr (
          not_,
          run-err with_server invoice config cosign receipt e s
              (llama_extract-err server invoice world e h not_),
        )
      ]
