-- ===== src/Store/Write.antt =====
-- SetVariable through the driver, against the store of the TA.
use qemu_pipeline.Base.{ℕ, Bool, ◌+◌, ◌≡◌, refl, ap, sym, subst, ◌∙◌, Option, some, arith}
use qemu_pipeline.Outcome.{Returns, returns, bind}
use qemu_pipeline.Memory.{Block}
use qemu_pipeline.Efi.Guid.{Guid}
use qemu_pipeline.Support.{Chars, str_size}
use qemu_pipeline.Wide.RoundTrip.{cut-narrow}
use qemu_pipeline.Firmware.Laws.{set_variable_published}
use qemu_pipeline.Driver.Tee.{TeeClient, Reply}
use qemu_pipeline.Driver.State.{Driver}
use qemu_pipeline.Driver.Invoke.{status_of}
use qemu_pipeline.Driver.Get.Safety.{IsString, str_size-eq}
use qemu_pipeline.Driver.GetNext.Ordered.{IsOpen, IsServing}
use qemu_pipeline.Driver.Set.{set_variable}
use qemu_pipeline.Driver.Set.Laws.{source_byte, IsSetParam}
use qemu_pipeline.Driver.Set.Answer.{IsAcceptedSet, set_operation, set_variable-IsAnsweredSet}
use qemu_pipeline.Store.{VariableStore, write_call, seen_status, bytes_of, perform, answer}
use qemu_pipeline.Store.Laws.{KeepsStore, IsWritable, Refines}

module _ {W S : Type 0} (tee : TeeClient W) (Holds : W → Type 0) (store : W → S)
    (m : VariableStore S) (k : KeepsStore tee Holds store m) where
  module _ (name : Chars) (g : Guid) (attributes size : ℕ) (source : Option Block) (d : Driver W)
      {flag : Bool} (s : IsOpen tee Holds store m.after flag d)
      (v : IsWritable name g attributes size source) where
    is_string : IsString name
    is_string = omega (arith, v.0.short)

    accepted : IsAcceptedSet tee name g attributes size source d s.ready
    accepted = record {
      opened = s.opened;
      named = v.3;
      string = is_string;
      guid = v.0.guid;
      attributes_small = v.4;
      take = v.2;
      not_hook = v.1;
      fits = omega (arith, v.5, s.param_size, str_size-eq name is_string);
    }

    -- The store takes the write, or refuses it, with the bytes that the caller has passed.
    pub written :
        Returns
          (λ (status, d').
            (status
              ≡ status_of
                  (m.write
                    (store d.world)
                    name
                    g
                    attributes
                    (bytes_of size (source_byte source))).0)
            × (store d'.world
                ≡ (m.write
                    (store d.world)
                    name
                    g
                    attributes
                    (bytes_of size (source_byte source))).1)
            × IsOpen tee Holds store m.after flag d')
          (set_variable tee (some name) (some g) attributes size source d)
    written =
        let w = set_variable-IsAnsweredSet tee name g attributes size source d s.ready accepted in
        let (result, world, holds) =
          k.writes d.world d.session_id
            (set_operation w.request (44 + str_size name + size) w.cleared) w.request name g
            attributes size source s.holds v.0 refl
            (subst (λ us. IsSetParam w.request (str_size name) g us attributes size source)
              (cut-narrow name v.0.narrow) w.decodes) in
        rw w.answer (
          returns (
            ap (λ (r : Reply W). status_of r.result) w.replied ∙ ap status_of result,
            ap store w.world ∙ ap (λ (r : Reply W). store r.world) w.replied ∙ world,
            record {
              ready = w.ready;
              opened = w.same.opened ∙ s.opened;
              published = w.same.published ∙ s.published;
              param_size = w.same.param_size ∙ s.param_size;
              result_size = w.same.result_size ∙ s.result_size;
              holds = subst Holds (sym (w.world ∙ ap (λ (r : Reply W). r.world) w.replied)) holds;
            },
          ))

  module _ (name : Chars) (g : Guid) (attributes size : ℕ) (source : Option Block) (d : Driver W)
      (s : IsServing tee Holds store m.after d) (v : IsWritable name g attributes size source) where
    pub write_call-Refines : Refines tee Holds store m (write_call name g attributes size source) d
    unfolding perform answer
    write_call-Refines =
        rw (set_variable_published tee d s.published (some name) (some g) attributes size source) (
          bind (written name g attributes size source d s v)
            λ (status, d') (told, same, serving). returns (ap seen_status told, same, serving))
