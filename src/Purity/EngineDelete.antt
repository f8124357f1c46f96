-- ===== src/Purity/EngineDelete.antt =====
-- purity/engine.py: `delete` takes away a block only with its last reference.
use storage_appliance_archit.Base.{
  ◌≤◌, ◌≡◌, ◌≢◌, refl, ◌∙◌, ap, sym, subst, none, some, Bool, true, false, String, string_key,
  string_discrete, arith, Bool-cases, Option-cases, inl, inr, ok, raise, leb, key_error,
}
use storage_appliance_archit.Base.Dict.{lookup, lookup-insert, lookup-erase}
use storage_appliance_archit.Purity.Wire.{Bytes}
use storage_appliance_archit.Purity.Tools.{Tools}
use storage_appliance_archit.Purity.Dedup.{DedupEngine, DedupEntry, dereference_block, one_less}
use storage_appliance_archit.Purity.Pattern.{is_encoded}
use storage_appliance_archit.Purity.DedupSound
use storage_appliance_archit.Purity.DedupSound.{dereference_block-IsSound}
use storage_appliance_archit.Purity.Engine.{PurityEngine, delete, delete_if_free}
use storage_appliance_archit.Purity.EngineTrip.{IsSound, IsCollisionFree, reads, reads-same}
use storage_appliance_archit.Storage.Backend.{FileBackend, delete_block}
use storage_appliance_archit.Storage.BackendSound.{
  view, is_some, drop_reference, Changed, delete_block-Changed,
}

-- An entry that is left names the block that it named before.
dereference-entries :
    (fp : String) (m : DedupEngine) (j : String) (w : DedupEntry)
    → DedupSound.IsSound m
    → lookup j (dereference_block fp m).1.dedupe_table ≡ some w
    → (v : DedupEntry) × (lookup j m.dedupe_table ≡ some v) × (w.block_id ≡ v.block_id)
unfolding dereference_block
dereference-entries fp m j w h k = elim (Option-cases (lookup fp m.dedupe_table)) [
  | inl q ↦ (w, ground arith, refl)
  | inr (v, q) ↦ elim (Bool-cases (leb v.reference_count 1)) [
    | inl t ↦ (w, ground (arith, lookup-erase fp j m.dedupe_table h.is_dict), refl)
    | inr t ↦ elim (string_discrete fp j) [
      | yes p ↦ (v, ground arith, ground (arith, lookup-insert fp j (one_less v) m.dedupe_table))
      | no n ↦ (w, ground (arith, lookup-insert fp j (one_less v) m.dedupe_table), refl)
    ]
  ]
]

-- The last reference takes the entry with it.
dereference-last :
    (fp : String) (m : DedupEngine) (v : DedupEntry)
    → DedupSound.IsSound m
    → lookup fp m.dedupe_table ≡ some v
    → leb v.reference_count 1 ≡ true
    → lookup fp (dereference_block fp m).1.dedupe_table ≡ none
unfolding dereference_block
dereference-last fp m v h q t = ground (arith, lookup-erase fp fp m.dedupe_table h.is_dict)

module _ (tools : Tools) (free : IsCollisionFree tools) (fp : String) (e : PurityEngine)
    (v : DedupEntry) (h : IsSound tools e)
    (q : lookup fp e.deduplication.dedupe_table ≡ some v) where
  -- Two entries that name one block are one entry.
  same_block :
      (j : String) (w : DedupEntry)
      → lookup j e.deduplication.dedupe_table ≡ some w
      → w.block_id ≡ v.block_id
      → j ≡ fp
  same_block j w k same =
      let (c, digest, n, r) = h.entries fp v q in
      let (d, digest', n', r') = h.entries j w k in
      let both : ok d ≡ ok c = sym r' ∙ ap (reads tools e) same ∙ r in
      let equal : d ≡ c = ground arith in sym digest' ∙ ap tools.sha256 equal ∙ digest

  deleted-reads :
      (b : FileBackend) (ch : Changed tools v.block_id drop_reference e.backend b) (m : DedupEngine)
      (j : String)
      → v.block_id ≢ j
      → reads tools (record e { backend = b; deduplication = m }) j ≡ reads tools e j
  deleted-reads b ch m j n =
      reads-same tools (record e { backend = b; deduplication = m }) e refl j
        (ground (arith, ch.views j))

  -- The table after the deletion.
  left : DedupEngine
  left = (dereference_block fp e.deduplication).1

  last_state :
      (b : FileBackend) (x : Bool)
      → leb v.reference_count 1 ≡ true
      → delete_block v.block_id e.backend ≡ (ok x, b)
      → delete v.block_id fp e ≡ (ok x, record e { backend = b; deduplication = left })
  unfolding delete delete_if_free dereference_block left
  last_state b x t run = ground (arith, q, run)

  shared_state :
      leb v.reference_count 1 ≡ false
      → delete v.block_id fp e ≡ (ok false, record e { deduplication = left })
  unfolding delete delete_if_free dereference_block left
  shared_state t = ground (arith, q)

  last-IsSound :
      (b : FileBackend)
      → Changed tools v.block_id drop_reference e.backend b
      → leb v.reference_count 1 ≡ true
      → IsSound tools (record e { backend = b; deduplication = left })
  unfolding left
  last-IsSound b ch t = record {
    backend = ch.sound;
    dedup = dereference_block-IsSound fp e.deduplication h.dedup;
    compressing = h.compressing;
    codec = h.codec;
    entries = λ j w k.
        let (o, k', same) = dereference-entries fp e.deduplication j w h.dedup k in
        let (c, digest, n, r) = h.entries j o k' in
        let apart : v.block_id ≢ w.block_id = (λ p.
          let none_left =
            ap (λ i. lookup i left.dedupe_table) (same_block j o k' (sym same ∙ sym p))
            ∙ dereference-last fp e.deduplication v h.dedup q t in
          ground arith) in
        (c, digest, n, deleted-reads b ch left w.block_id apart ∙ ap (reads tools e) same ∙ r);
  }

  shared-IsSound : IsSound tools (record e { deduplication = left })
  unfolding left
  shared-IsSound = record {
    backend = h.backend;
    dedup = dereference_block-IsSound fp e.deduplication h.dedup;
    compressing = h.compressing;
    codec = h.codec;
    entries = λ j w k.
        let (o, k', same) = dereference-entries fp e.deduplication j w h.dedup k in
        let (c, digest, n, r) = h.entries j o k' in
        (
          c,
          digest,
          n,
          reads-same tools (record e { deduplication = left }) e refl w.block_id refl
              ∙ ap (reads tools e) same
              ∙ r,
        );
  }

  -- In a sound engine, with a digest without collisions, a deletion by an entry of the
  -- deduplication table keeps the engine sound, and every other block, and the entry's own block
  -- if the entry has a further reference, still reads the same.
  pub delete-reads :
      (j : String)
      → (v.block_id ≡ j → 2 ≤ v.reference_count)
      → IsSound tools (delete v.block_id fp e).1
        × (reads tools (delete v.block_id fp e).1 j ≡ reads tools e j)
  delete-reads j shared = elim (Bool-cases (leb v.reference_count 1)) [
    | inl t ↦
        let (b, run, ch) = delete_block-Changed tools v.block_id e.backend h.backend in
        let apart : v.block_id ≢ j = (λ p. let two = shared p in ground arith) in
        subst (λ f. IsSound tools f × (reads tools f j ≡ reads tools e j))
          (sym (ap (λ o. o.1) (last_state b (is_some (view e.backend v.block_id)) t run)))
          (last-IsSound b ch t, deleted-reads b ch left j apart)
    | inr t ↦
        subst (λ f. IsSound tools f × (reads tools f j ≡ reads tools e j))
          (sym (ap (λ o. o.1) (shared_state t)))
          (shared-IsSound, reads-same tools (record e { deduplication = left }) e refl j refl)
  ]

  -- A deletion of a sound engine's registered block, which has one reference, with the fingerprint
  -- of a pattern marker removes the block and leaves its entry in the deduplication table. The
  -- result of storing a pattern carries the fingerprint of the marker, and the table the data's.
  pub delete-pattern_dangles :
      (code stored : Bytes)
      → is_encoded code ≡ true
      → view e.backend v.block_id ≡ some (stored, 1)
      → (after : PurityEngine) × (delete v.block_id (tools.sha256 code) e ≡ (ok true, after))
        × (lookup fp after.deduplication.dedupe_table ≡ some v)
        × (reads tools after v.block_id ≡ raise key_error)
  unfolding delete delete_if_free dereference_block reads
  delete-pattern_dangles code stored marked one =
      let (b, run, ch) = delete_block-Changed tools v.block_id e.backend h.backend in
      elim (Option-cases (lookup (tools.sha256 code) e.deduplication.dedupe_table)) [
        | inl p ↦
            let gone : view b v.block_id ≡ none = ground (arith, ch.views v.block_id, one) in
            (record e { backend = b }, ground (arith, p, run, one), q, ground (arith, gone))
        | inr (w, p) ↦
            let (c, digest, n, r) = h.entries (tools.sha256 code) w p in
            let same = free c code digest in absurd (ground arith)
      ]

  -- The last reference takes the block with it.
  pub delete-last_gone :
      (stored : Bytes)
      → v.reference_count ≡ 1
      → view e.backend v.block_id ≡ some (stored, 1)
      → (after : PurityEngine) × (delete v.block_id fp e ≡ (ok true, after))
        × IsSound tools after
        × (reads tools after v.block_id ≡ raise key_error)
  unfolding reads
  delete-last_gone stored one last =
      let (b, run, ch) = delete_block-Changed tools v.block_id e.backend h.backend in
      let t : leb v.reference_count 1 ≡ true = ground arith in
      let gone : view b v.block_id ≡ none = ground (arith, ch.views v.block_id, last) in
      (
        record e { backend = b; deduplication = left },
        last_state b true t (run ∙ ap (λ s. (ok (is_some s), b)) last),
        last-IsSound b ch t,
        ground (arith, gone),
      )
