-- ===== src/Purity/EngineTrip.antt =====
-- purity/engine.py: what is stored is given back, by this and by every later call.
use storage_appliance_archit.Base.{
  ◌≡◌, ◌≢◌, refl, ◌∙◌, ap, sym, subst, none, some, true, false, String, string_key, string_discrete,
  arith, length, ite, Option-cases, inl, inr, ◌⊎◌, Result, ok, raise,
}
use storage_appliance_archit.Base.Dict.{lookup, lookup-insert}
use storage_appliance_archit.Purity.Wire.{Bytes}
use storage_appliance_archit.Purity.Tools.{Tools, IsLossless}
use storage_appliance_archit.Purity.Pattern.{PatternRemoval, is_encoded}
use storage_appliance_archit.Purity.Compression.{none_algorithm}
use storage_appliance_archit.Purity.Dedup.{
  DedupEngine, DedupEntry, new_entry, one_more, register_block,
}
use storage_appliance_archit.Purity.DedupSound
use storage_appliance_archit.Purity.DedupSound.{register_block-IsSound}
use storage_appliance_archit.Purity.Engine.{PurityEngine, unpacked, decoded, retrieve}
use storage_appliance_archit.Purity.EngineStages.{decode-same}
use storage_appliance_archit.Storage.Backend.{BlockInfo, FileBackend, write_block, read_block}
use storage_appliance_archit.Storage.BackendSound
use storage_appliance_archit.Storage.BackendSound.{
  Stored, view, read_result, put, Changed, Changed-same, write_block-Changed, read_block-returns,
}

-- The digest tells data apart, as SHA-256 is relied on to do.
abbrev pub IsCollisionFree : Tools → Type 0
IsCollisionFree tools = (a b : Bytes) → tools.sha256 a ≡ tools.sha256 b → a ≡ b

abbrev pub then_decoded : PatternRemoval → Result Bytes → Result Bytes
then_decoded r (raise x) = raise x
then_decoded r (ok current) = decoded r current

abbrev pub then_unpacked : Tools → Result Bytes → Result Bytes
then_unpacked tools (raise x) = raise x
then_unpacked tools (ok content) = unpacked tools content

-- What `retrieve` makes of a stored block.
abbrev pub restored : Tools → PatternRemoval → Stored → Result Bytes
restored tools r s = then_decoded r (then_unpacked tools (read_result s))

unfoldable pub reads : Tools → PurityEngine → String → Result Bytes
reads tools e id = restored tools e.pattern_removal (view e.backend id)

decoded-same :
    (r q : PatternRemoval) (o : Result Bytes)
    → r.min_block_size ≡ q.min_block_size
    → then_decoded r o ≡ then_decoded q o
decoded-same r q (raise x) e = refl
decoded-same r q (ok c) e = ground (arith, decode-same r q c e)

pub reads-same :
    (tools : Tools) (e f : PurityEngine)
    → e.pattern_removal.min_block_size ≡ f.pattern_removal.min_block_size
    → (j : String) → view e.backend j ≡ view f.backend j
    → reads tools e j ≡ reads tools f j
unfolding reads
reads-same tools e f m j v =
    ap (restored tools e.pattern_removal) v
    ∙ decoded-same e.pattern_removal f.pattern_removal
        (then_unpacked tools (read_result (view f.backend j))) m

retrieve_from :
    (tools : Tools) (id : String) (e : PurityEngine) (r : Result Bytes) (b : FileBackend)
    → read_block id e.backend ≡ (r, b)
    → ((retrieve tools id e).0 ≡ then_decoded e.pattern_removal (then_unpacked tools r))
      × ((retrieve tools id e).1 ≡ record e { backend = b })
unfolding retrieve
retrieve_from tools id e (raise x) b run = (ground arith, ground arith)
retrieve_from tools id e (ok c) b run = (ground arith, ground arith)

-- `retrieve` returns what the block reads, and no block changes.
pub retrieve-reads :
    (tools : Tools) (id : String) (e : PurityEngine)
    → BackendSound.IsSound tools e.backend
    → ((retrieve tools id e).0 ≡ reads tools e id)
      × ((j : String) → reads tools (retrieve tools id e).1 j ≡ reads tools e j)
unfolding retrieve reads
retrieve-reads tools id e h =
    let (b, run, ch) = read_block-returns tools id e.backend h in
    let (value, state) = retrieve_from tools id e (read_result (view e.backend id)) b run in
    (
      value,
      λ j.
          subst (λ f. reads tools f j ≡ reads tools e j) (sym state)
            (reads-same tools (record e { backend = b }) e refl j
              (Changed-same tools id e.backend b ch j)),
    )

-- The settings are those of a compressing engine, and every entry of the deduplication table names a
-- stored block that reads data with the entry's fingerprint, which does not look like a marker.
pub record IsSound (tools : Tools) (e : PurityEngine) : Type 0 where
  pub backend : BackendSound.IsSound tools e.backend
  pub dedup : DedupSound.IsSound e.deduplication
  pub compressing : e.compression_enabled ≡ true
  pub codec : e.compression.algorithm ≢ none_algorithm
  pub entries :
      (fp : String) (v : DedupEntry)
      → lookup fp e.deduplication.dedupe_table ≡ some v
      → (content : Bytes) × (tools.sha256 content ≡ fp)
        × (is_encoded content ≡ false)
        × (reads tools e v.block_id ≡ ok content)

-- An entry after a registration names the block of the entry before, or the block registered.
register-entries :
    (tools : Tools) (content : Bytes) (id : String) (m : DedupEngine) (j : String) (v : DedupEntry)
    → lookup j (register_block tools content id m).1.dedupe_table ≡ some v
    → ((w : DedupEntry) × (lookup j m.dedupe_table ≡ some w) × (v.block_id ≡ w.block_id))
      ⊎ ((tools.sha256 content ≡ j) × (v.block_id ≡ id))
unfolding register_block
register-entries tools content id m j v k =
    let fp = tools.sha256 content in
    elim (string_discrete fp j) [
      | yes p ↦ elim (Option-cases (lookup fp m.dedupe_table)) [
        | inl q ↦ inr (
          p,
          ground (arith, lookup-insert fp j (new_entry fp id (length content)) m.dedupe_table),
        )
        | inr (w, q) ↦
            inl (w, ground arith, ground (arith, lookup-insert fp j (one_more w) m.dedupe_table))
      ]
      | no n ↦ elim (Option-cases (lookup fp m.dedupe_table)) [
        | inl q ↦ inl (
          v,
          ground (arith, lookup-insert fp j (new_entry fp id (length content)) m.dedupe_table),
          refl,
        )
        | inr (w, q) ↦ inl (v, ground (arith, lookup-insert fp j (one_more w) m.dedupe_table), refl)
      ]
    ]

module _ (tools : Tools) (l : IsLossless tools) (free : IsCollisionFree tools) where
  -- Counters, and the stages before the table and the backend, leave everything readable.
  pub moved-IsSound :
      (e f : PurityEngine)
      → f.pattern_removal.min_block_size ≡ e.pattern_removal.min_block_size
      → f.backend ≡ e.backend
      → f.deduplication ≡ e.deduplication
      → f.compression.algorithm ≡ e.compression.algorithm
      → f.compression_enabled ≡ e.compression_enabled
      → IsSound tools e
      → IsSound tools f
  moved-IsSound e f m b d a c h = record {
    backend = subst (λ x. BackendSound.IsSound tools x) (sym b) h.backend;
    dedup = subst (λ x. DedupSound.IsSound x) (sym d) h.dedup;
    compressing = c ∙ h.compressing;
    codec = λ n. h.codec (sym a ∙ n);
    entries = λ fp v q.
        let (x, s, n, r) = h.entries fp v (ap (λ t. lookup fp t.dedupe_table) (sym d) ∙ q) in
        (x, s, n, reads-same tools f e m v.block_id (ap (λ t. view t v.block_id) b) ∙ r);
  }

  -- A block of the table, or one that reads the data, is registered.
  pub register-IsSound :
      (content : Bytes) (id : String) (e : PurityEngine)
      → is_encoded content ≡ false
      → reads tools e id ≡ ok content
      → IsSound tools e
      → IsSound tools
          (record e { deduplication = (register_block tools content id e.deduplication).1 })
  unfolding reads
  register-IsSound content id e n r h = record {
    backend = h.backend;
    dedup = register_block-IsSound tools content id e.deduplication h.dedup;
    compressing = h.compressing;
    codec = h.codec;
    entries = λ j v k. elim (register-entries tools content id e.deduplication j v k) [
      | inl (w, q, same) ↦
          let (x, s, m, t) = h.entries j w q in (x, s, m, ap (reads tools e) same ∙ t)
      | inr (p, same) ↦ (content, p, n, ap (reads tools e) same ∙ r)
    ];
  }

  -- A block is written under a new id.
  pub record Added (packed : Bytes) (id : String) (e : PurityEngine) : Type 0 where
    pub backend : FileBackend
    pub info : BlockInfo
    pub wrote : write_block tools id packed e.backend ≡ (ok info, backend)
    pub sound : IsSound tools (record e { backend = backend })
    pub new : view backend id ≡ some (packed, 1)
    pub others :
        (j : String) (c : Bytes)
        → reads tools e j ≡ ok c
        → reads tools (record e { backend = backend }) j ≡ ok c
    pub untouched : (j : String) → id ≢ j → view backend j ≡ view e.backend j

  written_apart :
      (packed : Bytes) (id : String) (e : PurityEngine) (b : FileBackend)
      → view e.backend id ≡ none
      → Changed tools id (put tools packed) e.backend b
      → (j : String) (c : Bytes) → reads tools e j ≡ ok c
      → reads tools (record e { backend = b }) j ≡ ok c
  unfolding reads
  written_apart packed id e b fresh ch j c r =
      reads-same tools (record e { backend = b }) e refl j same ∙ r
    where
      gone : id ≡ j → ⊥
      gone p = let none_there = ap (view e.backend) (sym p) ∙ fresh in ground arith

      same : view b j ≡ view e.backend j
      same = ch.views j ∙ by_key (string_discrete id j)
        where
          by_key :
              (d : Dec (id ≡ j))
              → ite d (put tools packed (view e.backend id)) (view e.backend j) ≡ view e.backend j
          by_key (yes p) = absurd (gone p)
          by_key (no n) = refl

  pub add-Added :
      (packed : Bytes) (id : String) (e : PurityEngine)
      → view e.backend id ≡ none
      → IsSound tools e
      → Added packed id e
  add-Added packed id e fresh h =
      let (info, b, run, ch) = write_block-Changed tools id packed e.backend h.backend in
      record {
        backend = b;
        info = info;
        wrote = run;
        sound = record {
          backend = ch.sound;
          dedup = h.dedup;
          compressing = h.compressing;
          codec = h.codec;
          entries = λ fp v q.
              let (x, s, n, r) = h.entries fp v q in
              (x, s, n, written_apart packed id e b fresh ch v.block_id x r);
        };
        new = ground (arith, ch.views id);
        others = written_apart packed id e b fresh ch;
        untouched = λ j n. ground (arith, ch.views j);
      }
