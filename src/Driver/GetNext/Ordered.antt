-- ===== src/Driver/GetNext/Ordered.antt =====
-- GetNextVariableName with a TA that keeps its variables in an order.
use qemu_pipeline.Base.{
  ℕ, Bool, ◌+◌, ◌*◌, ◌/◌, ◌≤◌, ◌<◌, ◌≡◌, refl, sym, ◌∙◌, ap, subst, true, List, [], ◌∷◌, All,
  Option, some, arith, u16, length, inl, inr,
}
use qemu_pipeline.Outcome.{Returns, mono}
use qemu_pipeline.Memory.{Block}
use qemu_pipeline.Efi.Guid.{Guid, IsGuid, read_guid}
use qemu_pipeline.Support.{Chars}
use qemu_pipeline.Wide.Laws.{HasChars}
use qemu_pipeline.Wide.RoundTrip.{IsNarrow, cut-narrow, widen-narrow, nonzero-narrow}
use qemu_pipeline.Driver.Tee.{item_not_found, TeeClient, Reply, Operation}
use qemu_pipeline.Driver.State.{Driver, IsReady}
use qemu_pipeline.Driver.Request.Laws.{IsGetParam}
use qemu_pipeline.Driver.Get.Safety.{IsString}
use qemu_pipeline.Driver.GetNext.{NextResult, next_result, name_size_in, get_next_variable_name}
use qemu_pipeline.Driver.GetNext.Sent.{name_size_in-eq}
use qemu_pipeline.Driver.GetNext.Replied.{IsAcceptedNext, Answers}
use qemu_pipeline.Driver.GetNext.Held.{
  IsNextReply, IsAfter, get_next_variable_name-short, get_next_variable_name-IsNext,
  get_next_variable_name-end,
}

-- A name and a GUID that pass through the transport buffers as they are, with room for the rest of
-- the request.
pub record IsVariable (name : Chars) (vendor : Guid) : Type 0 where
  pub narrow : All IsNarrow name
  pub guid : IsGuid vendor
  pub short : 28 + 2 * (length name + 1) ≤ 32812

-- The variables that a store holds behind the one of a name and a GUID.
abbrev pub After : Type 0 → Type 0
After S = S → Chars → Guid → List (Chars × Guid)

-- The answer to a request for what is behind `us` and `g`: nothing is, or the next variable. The
-- request leaves the store, which the world stands for, as it is.
pub record IsOrderedReply {W S : Type 0} (Holds : W → Type 0) (store : W → S) (after : After S)
    (w : W) (us : Chars) (g : Guid) (room : ℕ) (reply : Reply W) : Type 0 where
  pub ends : after (store w) us g ≡ [] → reply.result ≡ item_not_found
  pub next :
      (next : Chars × Guid) (rest : List (Chars × Guid))
      → after (store w) us g ≡ next ∷ rest
      → IsNextReply reply room (next.0)
        × (28 + 2 * (length (next.0) + 1) ≤ room → read_guid reply.output 8 ≡ next.1)
  pub holds : Holds reply.world
  pub same : store reply.world ≡ store w

module _ {W S : Type 0} (tee : TeeClient W) (Holds : W → Type 0) (store : W → S)
    (after : After S) where
  -- A TA that keeps its variables in an order, and answers by it in any session.
  pub record KeepsOrder : Type 0 where
    pub listed :
        (w : W) (us : Chars) (g : Guid) (next : Chars × Guid) (rest : List (Chars × Guid))
        → Holds w
        → after (store w) us g ≡ next ∷ rest
        → IsVariable (next.0) (next.1)
    pub behind :
        (w : W) (us : Chars) (g : Guid) (next : Chars × Guid) (rest : List (Chars × Guid))
        → Holds w
        → after (store w) us g ≡ next ∷ rest
        → after (store w) (next.0) (next.1) ≡ rest
    pub answers :
        (w : W) (session : ℕ) (operation : Operation) (request : Block) (us : Chars) (g : Guid)
        → Holds w
        → IsVariable us g
        → operation.input ≡ some request
        → IsGetParam request (name_size_in us) g us
        → IsOrderedReply Holds store after w us g operation.output_size
            (tee.invoke_command w session 1 operation)

  -- The driver in an open session, with the buffers that TaOpenSession asks for; whether its
  -- services are published is as the flag says.
  pub record IsOpen (flag : Bool) (d : Driver W) : Type 0 where
    pub ready : IsReady d
    pub opened : d.session_opened ≡ true
    pub published : d.published ≡ flag
    pub param_size : d.param_mem.size ≡ 32812
    pub result_size : d.result_mem.size ≡ 32812
    pub holds : Holds d.world

  abbrev pub IsServing : Driver W → Type 0
  IsServing d = IsOpen true d

  -- The caller's name, in a buffer of at least the size that is passed.
  pub record IsPassed (b : Block) (size : ℕ) (cs : Chars) : Type 0 where
    pub chars : HasChars b cs
    pub ends : 4 * (length cs + 1) ≤ b.extent
    pub room : size ≤ b.extent
    pub limit : size ≤ 65568

  module _ (k : KeepsOrder) (size : ℕ) (b : Block) (cs : Chars) (g : Guid) (d : Driver W)
      (s : IsServing d) (v : IsVariable cs g) (a : IsPassed b size cs) where
    abbrev Ordered : Reply W → Type 0
    Ordered = IsOrderedReply Holds store after d.world cs g (28 + size / 2)

    is_string : IsString cs
    is_string = omega (arith, v.short)

    accepted : IsAcceptedNext tee cs g size b d
    accepted = record {
      opened = s.opened;
      chars = a.chars;
      nonzero = nonzero-narrow cs v.narrow;
      string = is_string;
      ends = a.ends;
      room = a.room;
      guid = v.guid;
      fits = omega (arith, v.short, s.param_size);
      holds = omega (arith, a.limit, s.result_size);
    }

    name_size : u16 (name_size_in cs) ≡ name_size_in cs
    name_size = elim (name_size_in-eq tee cs is_string) [
      | inl e ↦ omega (arith, e)
      | inr e ↦ omega (arith, e, v.short)
    ]

    ordered : Answers tee cs g d (28 + size / 2) Ordered
    ordered = record {
      answers = λ operation request there e decodes.
          subst
            (λ room.
              IsOrderedReply Holds store after d.world cs g room
                (tee.invoke_command d.world d.session_id 1 operation))
            e
            (k.answers d.world d.session_id operation request cs g s.holds v there (
              subst (λ n. IsGetParam request n g cs) name_size
                (subst (λ us. IsGetParam request (u16 (name_size_in cs)) g us)
                  (cut-narrow cs v.narrow) decodes)));
    }

    -- The driver serves on, with the variables that there were.
    still :
        {d' : Driver W}
        → IsAfter tee cs g Ordered d d'
        → IsServing d' × (store d'.world ≡ store d.world)
    still left = (
      record {
        ready = left.ready;
        opened = left.same.opened ∙ s.opened;
        published = left.same.published ∙ s.published;
        param_size = left.same.param_size ∙ s.param_size;
        result_size = left.same.result_size ∙ s.result_size;
        holds = subst Holds (sym left.world) left.holds.holds;
      },
      ap store left.world ∙ left.holds.same,
    )

    -- At the end of the variables: EFI_NOT_FOUND.
    pub get_next_variable_name-at_end :
        after (store d.world) cs g ≡ []
        → Returns
            (λ (out, d'). (out.status ≡ 14) × IsServing d' × (store d'.world ≡ store d.world))
            (get_next_variable_name tee (some size) (some b) (some g) d)
    get_next_variable_name-at_end none_left =
        mono
          (get_next_variable_name-end tee cs g size b d s.ready accepted ordered
            λ reply o. o.ends none_left)
          λ (out, d') (status, left). (status, (still left).0, (still left).1)

    module _ (next : Chars × Guid) (rest : List (Chars × Guid))
        (e : after (store d.world) cs g ≡ next ∷ rest) where
      -- The next variable, with a buffer too small for its name: the size that it takes.
      pub get_next_variable_name-too_small :
          size < 4 * (length (next.0) + 1)
          → Returns
              (λ (out, d').
                (out ≡ next_result 5 (some (4 * (length (next.0) + 1))) (some b) (some g))
                × IsServing d'
                × (store d'.world ≡ store d.world))
              (get_next_variable_name tee (some size) (some b) (some g) d)
      get_next_variable_name-too_small short =
          mono
            (get_next_variable_name-short tee cs g size b d s.ready accepted ordered (next.0)
              (λ reply o. (o.next next rest e).0) (omega arith)
              (omega (arith, (k.listed d.world cs g next rest s.holds e).short)))
            λ (out, d') (told, left). (told, (still left).0, (still left).1)

      -- The next variable, with a buffer that it fits: its name, its size and its GUID.
      pub get_next_variable_name-given :
          4 * (length (next.0) + 1) ≤ size
          → Returns
              (λ (out, d').
                ((c : Block) × (out
                    ≡ next_result 0 (some (4 * (length (next.0) + 1))) (some c) (some (next.1)))
                  × HasChars c (next.0)
                  × (c.extent ≡ b.extent))
                × IsServing d'
                × (store d'.world ≡ store d.world))
              (get_next_variable_name tee (some size) (some b) (some g) d)
      get_next_variable_name-given fits =
          mono
            (get_next_variable_name-IsNext tee cs g size b d s.ready accepted ordered (next.0)
              (λ reply o. (o.next next rest e).0) (omega arith))
            λ (out, d') (status, left, answer, found, bytes, (c', there', extent)).
              let (c, there, chars) = found.name in
              let vendor : read_guid answer.bytes 8 ≡ next.1 =
                ap (λ m. read_guid m 8) bytes ∙ (left.holds.next next rest e).1 (omega arith) in
              (
                (
                  c,
                  shape out found.name_size there status (found.vendor ∙ ap some vendor),
                  subst (HasChars c)
                      (widen-narrow (next.0) (k.listed d.world cs g next rest s.holds e).narrow)
                      chars,
                  same_extent there there' extent,
                ),
                (still left).0,
                (still left).1,
              )
        where
          same_extent :
              {o : Option Block} {c c' : Block}
              → o ≡ some c
              → o ≡ some c'
              → c'.extent ≡ b.extent
              → c.extent ≡ b.extent
          same_extent e e' h = cc

          shape :
              (out : NextResult) {n : ℕ} {c : Block} {v : Guid}
              → out.name_size ≡ some n
              → out.name ≡ some c
              → out.status ≡ 0
              → out.vendor ≡ some v
              → out ≡ next_result 0 (some n) (some c) (some v)
          shape out n c st v = rw (out, n, c, st, v) refl
