-- ===== src/Engine/Harvest.antt =====
-- The collected judgements of a window while its frames are harvested.
use ajq.Prelude.{
  ℕ, List, [], ◌∷◌, ◌++◌, Option, none, some, ◌≡◌, refl, ap, ◌∙◌, inl, inr, length, take,
  Option-cases,
}
use ajq.Value.{Value}
use ajq.Backend.{Judgement}
use ajq.Cache.{DiskOps}
use ajq.Engine.{Runtime, EngineError, harvest_phase}
use ajq.Engine.Callback.{harvest_append, check_invariant, either_error, discard_collected_from}

take-append {ℓ} : {A : Type ℓ} (xs ys : List A) → take (length xs) (xs ++ ys) ≡ xs
take-append [] ys = refl
take-append (x ∷ xs) ys = ap (λ l. x ∷ l) (take-append xs ys)

module _ (disk : DiskOps) where
  -- A failed frame leaves the window as it was; any other adds what its run has collected.
  abbrev pub IsTransaction :
      Runtime disk → List Judgement → List ℕ → Option EngineError × Runtime disk → Type 0
  IsTransaction rt js fs (some e, rt') =
      (rt'.collected ≡ rt.collected) × (rt'.collected_frames ≡ rt.collected_frames)
  IsTransaction rt js fs (none, rt') =
      (rt'.collected ≡ rt.collected ++ js) × (rt'.collected_frames ≡ rt.collected_frames ++ fs)

  -- If the run of a frame adds judgements and their frames behind what the window has collected,
  -- then harvesting the frame keeps exactly these, or, if the run fails or reports a call that was
  -- not planned, none of them.
  pub harvest_append-IsTransaction :
      (run : Value → Runtime disk → Option EngineError × Runtime disk) (rt : Runtime disk)
      (input : Value) (frame : ℕ) (js : List Judgement) (fs : List ℕ)
      → (run input (record rt { current_frame = frame; fired = [] })).1.collected
        ≡ rt.collected ++ js
      → (run input (record rt { current_frame = frame; fired = [] })).1.collected_frames
        ≡ rt.collected_frames ++ fs
      → IsTransaction rt js fs (harvest_append disk run rt input frame)
  unfolding harvest_append discard_collected_from
  harvest_append-IsTransaction run rt input frame js fs added added_frames =
      elim (Option-cases (either_error disk (check_invariant disk harvest_phase after.1) after.0)) [
        | inr (e, failed) ↦
            rw (failed, harvest_append)
              (
                ap (take (length rt.collected)) added ∙ take-append rt.collected js,
                ap (take (length rt.collected_frames)) added_frames
                    ∙ take-append rt.collected_frames fs,
              )
        | inl fine ↦ rw (fine, harvest_append) (added, added_frames)
      ]
    where
      after : Option EngineError × Runtime disk
      after = run input (record rt { current_frame = frame; fired = [] })
