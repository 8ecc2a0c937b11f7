-- ===== src/Store/Run.antt =====
-- Any sequence of calls through the driver, against the store of the TA.
use qemu_pipeline.Base.{◌≡◌, refl, ap, ap₂, ◌∙◌, List, [], ◌∷◌}
use qemu_pipeline.Outcome.{Returns, returns, bind}
use qemu_pipeline.Firmware.{runtime_services}
use qemu_pipeline.Driver.Tee.{TeeClient}
use qemu_pipeline.Driver.State.{Driver}
use qemu_pipeline.Driver.GetNext.Ordered.{IsServing}
use qemu_pipeline.Store.{
  VariableStore, Call, read_call, write_call, next_call, query_call, perform_all, answer_all,
}
use qemu_pipeline.Store.Laws.{KeepsStore, IsValid, Refines}
use qemu_pipeline.Base.{All}
use qemu_pipeline.Store.Read.{read_call-Refines}
use qemu_pipeline.Store.Write.{write_call-Refines}
use qemu_pipeline.Store.Next.{next_call-Refines}
use qemu_pipeline.Store.Query.{query_call-Refines}

module _ {W S : Type 0} (tee : TeeClient W) (Holds : W → Type 0) (store : W → S)
    (m : VariableStore S) (k : KeepsStore tee Holds store m) where
  call-Refines :
      (c : Call) (d : Driver W)
      → IsServing tee Holds store m.after d
      → IsValid tee Holds store m c
      → Refines tee Holds store m c d
  call-Refines (read_call name g old size contents) d s v =
      read_call-Refines tee Holds store m k name g old size contents d s v
  call-Refines (write_call name g attributes size source) d s v =
      write_call-Refines tee Holds store m k name g attributes size source d s v
  call-Refines (next_call name g size b) d s v =
      next_call-Refines tee Holds store m k name g size b d s v
  call-Refines (query_call attributes x y z) d s v =
      query_call-Refines tee Holds store m k attributes x y z d s v

  -- Any sequence of valid calls of GetVariable, SetVariable, GetNextVariableName and
  -- QueryVariableInfo through the driver, with its session open and its services published, in
  -- front of a TA that keeps a store, returns, and shows the client what the store answers to the
  -- sequence, in that order; the TA is left with the store that the sequence leaves, and the driver
  -- serves on.
  pub perform_all-refines :
      (cs : List Call) (d : Driver W)
      → IsServing tee Holds store m.after d
      → All (IsValid tee Holds store m) cs
      → Returns
          (λ (seen, d').
            (seen ≡ (answer_all m cs (store d.world)).0)
            × (store d'.world ≡ (answer_all m cs (store d.world)).1)
            × IsServing tee Holds store m.after d')
          (perform_all (runtime_services tee) cs d)
  unfolding perform_all answer_all
  perform_all-refines [] d s v = returns (refl, refl, s)
  perform_all-refines (c ∷ cs) d s v = bind (call-Refines c d s v.0) λ (seen, d') (same, left, s').
      bind (perform_all-refines cs d' s' v.1) λ (rest, d'') (same', left', s''). returns (
        ap₂ (λ x xs. x ∷ xs) same (same' ∙ ap (λ t. (answer_all m cs t).0) left),
        left' ∙ ap (λ t. (answer_all m cs t).1) left,
        s'',
      )
