-- ===== src/Storage/BackendRuns.antt =====
-- storage/file_backend.py: runs of calls refine the same calls on a function from block ids to
-- contents with reference counts.
use storage_appliance_archit.Base.{
  ◌≡◌, refl, ◌∙◌, ap, sym, subst, List, [], ◌∷◌, Bool, String, string_discrete, ite, ok, Result,
  Error,
}
use mathlib.Core.Path.{fun_ext}
use storage_appliance_archit.Purity.Wire.{Bytes}
use storage_appliance_archit.Purity.Tools.{Tools}
use storage_appliance_archit.Storage.Backend.{
  FileBackend, new_backend, write_block, read_block, delete_block,
}
use storage_appliance_archit.Storage.BackendSound.{
  IsSound, Stored, view, put, drop_reference, read_result, is_some, Changed-same,
  new_backend-IsSound, write_block-Changed, delete_block-Changed, read_block-returns,
}

pub data Call : Type 0 where
  write : String → Bytes → Call
  read : String → Call
  delete : String → Call

-- What a call returns: the result of a read, or whether a deletion found its block.
pub data Answer : Type 0 where
  written : Answer
  content : Result Bytes → Answer
  deleted : Bool → Answer
  failed : Error → Answer

abbrev written_of : {A : Type 0} → Result A → Answer
written_of (ok _) = written
written_of (Result.raise e) = failed e

abbrev deleted_of : Result Bool → Answer
deleted_of (ok b) = deleted b
deleted_of (Result.raise e) = failed e

-- One block of the abstract store changes.
abbrev pub update : (Stored → Stored) → String → (String → Stored) → String → Stored
update f id s j = ite (string_discrete id j) (f (s id)) (s j)

module _ (tools : Tools) where
  unfoldable pub step : FileBackend → Call → Answer × FileBackend
  step b (write id c) = let (r, b') = write_block tools id c b in (written_of r, b')
  step b (read id) = let (r, b') = read_block id b in (content r, b')
  step b (delete id) = let (r, b') = delete_block id b in (deleted_of r, b')

  unfoldable pub run : FileBackend → List Call → List Answer × FileBackend
  unfolding step
  run b [] = ([], b)
  run b (c ∷ cs) = let (a, b') = step b c in let (as', b'') = run b' cs in (a ∷ as', b'')

  -- The same calls on the abstract store.
  unfoldable pub replay : (String → Stored) → List Call → List Answer × (String → Stored)
  replay s [] = ([], s)
  replay s (write id c ∷ cs) =
      let (as', t) = replay (update (put tools c) id s) cs in (written ∷ as', t)
  replay s (read id ∷ cs) = let (as', t) = replay s cs in (content (read_result (s id)) ∷ as', t)
  replay s (delete id ∷ cs) =
      let (as', t) = replay (update drop_reference id s) cs in (deleted (is_some (s id)) ∷ as', t)

  -- Both runs end with the same answers and the same blocks.
  pub record Refines (b : FileBackend) (cs : List Call) : Type 0 where
    pub sound : IsSound tools (run b cs).1
    pub answers : (run b cs).0 ≡ (replay (view b) cs).0
    pub blocks : view (run b cs).1 ≡ (replay (view b) cs).1

  -- A first call on both sides, before runs that agree.
  cons-Refines :
      (b b' : FileBackend) (c : Call) (cs : List Call) (a : Answer)
      → step b c ≡ (a, b')
      → replay (view b) (c ∷ cs) ≡ (a ∷ (replay (view b') cs).0, (replay (view b') cs).1)
      → Refines b' cs
      → Refines b (c ∷ cs)
  unfolding run
  cons-Refines b b' c cs a e q next =
      let r : run b (c ∷ cs) ≡ (a ∷ (run b' cs).0, (run b' cs).1) = rw (e, run) refl in
      record {
        sound = subst (λ o. IsSound tools o.1) (sym r) next.sound;
        answers = ap (λ o. o.0) r ∙ ap (λ as'. a ∷ as') next.answers ∙ sym (ap (λ o. o.0) q);
        blocks = ap (λ o. view o.1) r ∙ next.blocks ∙ sym (ap (λ o. o.1) q);
      }

  run_from-Refines : (b : FileBackend) (cs : List Call) → IsSound tools b → Refines b cs
  unfolding step replay run
  run_from-Refines b [] h = record { sound = h; answers = refl; blocks = refl }
  run_from-Refines b (write id c ∷ cs) h =
      let (i, b', e, ch) = write_block-Changed tools id c b h in
      let v : view b' ≡ update (put tools c) id (view b) = fun_ext ch.views in
      cons-Refines b b' (write id c) cs written (ap (λ o. (written_of o.0, o.1)) e)
        (ap (λ s. (written ∷ (replay s cs).0, (replay s cs).1)) (sym v))
        (run_from-Refines b' cs ch.sound)
  run_from-Refines b (read id ∷ cs) h =
      let (b', e, ch) = read_block-returns tools id b h in
      let v : view b' ≡ view b = fun_ext (Changed-same tools id b b' ch) in
      cons-Refines b b' (read id) cs (content (read_result (view b id)))
        (ap (λ o. (content o.0, o.1)) e)
        (ap (λ s. (content (read_result (view b id)) ∷ (replay s cs).0, (replay s cs).1)) (sym v))
        (run_from-Refines b' cs ch.sound)
  run_from-Refines b (delete id ∷ cs) h =
      let (b', e, ch) = delete_block-Changed tools id b h in
      let v : view b' ≡ update drop_reference id (view b) = fun_ext ch.views in
      cons-Refines b b' (delete id) cs (deleted (is_some (view b id)))
        (ap (λ o. (deleted_of o.0, o.1)) e)
        (ap (λ s. (deleted (is_some (view b id)) ∷ (replay s cs).0, (replay s cs).1)) (sym v))
        (run_from-Refines b' cs ch.sound)

  -- Every run of writes, reads and deletions from an empty backend gives the answers and leaves the
  -- blocks of the same calls on a function from block ids to contents with reference counts, and the
  -- data and metadata files agree.
  pub run-Refines : (cs : List Call) → Refines new_backend cs
  run-Refines cs = run_from-Refines new_backend cs (new_backend-IsSound tools)
