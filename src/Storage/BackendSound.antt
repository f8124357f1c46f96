-- ===== src/Storage/BackendSound.antt =====
-- storage/file_backend.py: the two directories agree, and what each call does to the stored blocks.
use storage_appliance_archit.Base.{
  ℕ, ◌+◌, ◌-◌, ◌≤◌, ◌≡◌, refl, ◌∙◌, ap, Option, none, some, Bool, true, false, String, string_key,
  string_discrete, arith, length, leb, if◌then◌else◌, ite, Bool-cases, Option-cases, inl, inr, ◌⊎◌,
  ok, raise, key_error, Result,
}
use storage_appliance_archit.Base.Dict.{
  IsDict, lookup, insert-IsDict, erase-IsDict, lookup-insert, lookup-erase,
}
use storage_appliance_archit.Purity.Wire.{Bytes}
use storage_appliance_archit.Purity.Tools.{Tools}
use storage_appliance_archit.Storage.Backend.{
  BlockInfo, FileBackend, new_backend, new_info, referenced, released, write_metadata, write_file,
  write_block, read_block, delete_block, remove_files, count_read,
}

abbrev pub is_some {ℓ} : {A : Type ℓ} → Option A → Bool
is_some none = false
is_some (some _) = true

-- The metadata of a block: its id, and the size and the digest of its data.
pub record Describes (tools : Tools) (id : String) (i : BlockInfo) (content : Bytes) : Type 0 where
  pub same_id : i.block_id ≡ id
  pub same_size : i.size ≡ length content
  pub same_digest : i.checksum ≡ tools.sha256 content
  pub referred : 1 ≤ i.reference_count

-- Every block has both files or none, and the metadata describes the data.
pub record IsSound (tools : Tools) (b : FileBackend) : Type 0 where
  pub files_dict : IsDict b.files
  pub metadata_dict : IsDict b.metadata
  pub both : (id : String) → is_some (lookup id b.metadata) ≡ is_some (lookup id b.files)
  pub described :
      (id : String) (i : BlockInfo) (content : Bytes)
      → lookup id b.metadata ≡ some i
      → lookup id b.files ≡ some content
      → Describes tools id i content

-- What is stored under an id: the content and the number of references to it.
abbrev pub Stored : Type 0
Stored = Option (Bytes × ℕ)

abbrev pub stored : Option BlockInfo → Option Bytes → Stored
stored none file = none
stored (some info) none = none
stored (some info) (some content) = some (content, info.reference_count)

unfoldable pub view : FileBackend → String → Stored
view b id = stored (lookup id b.metadata) (lookup id b.files)

-- A write of content with the digest of what is there counts a reference; any other content
-- replaces what is there.
abbrev pub put : Tools → Bytes → Stored → Stored
put tools content none = some (content, 1)
put tools content (some (old, n)) =
    ite (string_discrete (tools.sha256 old) (tools.sha256 content)) (some (old, n + 1))
      (some (content, 1))

-- A deletion takes a reference back; with the last one the content goes.
abbrev pub drop_reference : Stored → Stored
drop_reference none = none
drop_reference (some (content, n)) = if leb n 1 then none else some (content, n - 1)

abbrev pub read_result : Stored → Result Bytes
read_result none = raise key_error
read_result (some (content, n)) = ok content

abbrev pub is_stored : Stored → Bool
is_stored none = false
is_stored (some _) = true

module _ (tools : Tools) where
  pub new_backend-IsSound : IsSound tools new_backend
  unfolding new_backend lookup
  new_backend-IsSound = record {
    files_dict = tt;
    metadata_dict = tt;
    both = λ id. refl;
    described = λ id i c e f. absurd (ground arith);
  }

  -- The pair of files of a sound block.
  cases_at :
      (id : String) (b : FileBackend)
      → IsSound tools b
      → ((lookup id b.metadata ≡ none) × (lookup id b.files ≡ none))
        ⊎ ((i : BlockInfo) × (content : Bytes) × (lookup id b.metadata ≡ some i)
            × (lookup id b.files ≡ some content)
            × Describes tools id i content)
  cases_at id b h = elim (Option-cases (lookup id b.metadata)) [
    | inl e ↦ elim (Option-cases (lookup id b.files)) [
      | inl f ↦ inl (e, f)
      | inr (c, f) ↦ absurd (ground (arith, h.both id))
    ]
    | inr (i, e) ↦ elim (Option-cases (lookup id b.files)) [
      | inl f ↦ absurd (ground (arith, h.both id))
      | inr (c, f) ↦ inr (i, c, e, f, h.described id i c e f)
    ]
  ]

  module _ (id : String) (content : Bytes) (b : FileBackend) (h : IsSound tools b) where
    write_file-IsSound : IsSound tools (write_file id content (tools.sha256 content) b)
    write_file-IsSound =
        let i = new_info id (length content) (tools.sha256 content) in
        record {
          files_dict = insert-IsDict id content b.files h.files_dict;
          metadata_dict = insert-IsDict id i b.metadata h.metadata_dict;
          both = λ j. ground (
            arith,
            h.both j,
            lookup-insert id j i b.metadata,
            lookup-insert id j content b.files,
          );
          described = λ j k c e f. ground (
            arith,
            h.described j k c,
            lookup-insert id j i b.metadata,
            lookup-insert id j content b.files,
          );
        }

    write_file-view :
        (j : String)
        → view (write_file id content (tools.sha256 content) b) j
          ≡ ite (string_discrete id j) (some (content, 1)) (view b j)
    unfolding view
    write_file-view j =
        let i = new_info id (length content) (tools.sha256 content) in
        ground (arith, lookup-insert id j i b.metadata, lookup-insert id j content b.files)

    module _ (i : BlockInfo) (e : lookup id b.files ≡ some content) where
      write_metadata-IsSound : Describes tools id i content → IsSound tools (write_metadata id i b)
      write_metadata-IsSound good = record {
        files_dict = h.files_dict;
        metadata_dict = insert-IsDict id i b.metadata h.metadata_dict;
        both = λ j. ground (arith, h.both j, lookup-insert id j i b.metadata);
        described =
            λ j k c p q. ground (arith, good, h.described j k c, lookup-insert id j i b.metadata);
      }

      write_metadata-view :
          (j : String)
          → view (write_metadata id i b) j
            ≡ ite (string_discrete id j) (some (content, i.reference_count)) (view b j)
      unfolding view
      write_metadata-view j = ground (arith, lookup-insert id j i b.metadata)

    remove_files-IsSound : IsSound tools (remove_files id b)
    remove_files-IsSound = record {
      files_dict = erase-IsDict id b.files h.files_dict;
      metadata_dict = erase-IsDict id b.metadata h.metadata_dict;
      both = λ j. ground (
        arith,
        h.both j,
        lookup-erase id j b.metadata h.metadata_dict,
        lookup-erase id j b.files h.files_dict,
      );
      described = λ j k c p q. ground (
        arith,
        h.described j k c,
        lookup-erase id j b.metadata h.metadata_dict,
        lookup-erase id j b.files h.files_dict,
      );
    }

    remove_files-view :
        (j : String) → view (remove_files id b) j ≡ ite (string_discrete id j) none (view b j)
    unfolding view
    remove_files-view j = ground (
      arith,
      lookup-erase id j b.metadata h.metadata_dict,
      lookup-erase id j b.files h.files_dict,
    )

module _ (tools : Tools) (id : String) where
  -- The block `id` changes by `f`, and no other block.
  pub record Changed (f : Stored → Stored) (b after : FileBackend) : Type 0 where
    pub sound : IsSound tools after
    pub views : (j : String) → view after j ≡ ite (string_discrete id j) (f (view b id)) (view b j)

  pub write_block-Changed :
      (content : Bytes) (b : FileBackend)
      → IsSound tools b
      → (info : BlockInfo) × (after : FileBackend) × (write_block tools id content b
          ≡ (ok info, after))
        × Changed (put tools content) b after
  unfolding write_block view
  write_block-Changed content b h = elim (cases_at tools id b h) [
    | inl (e, f) ↦ (
      new_info id (length content) (tools.sha256 content),
      write_file id content (tools.sha256 content) b,
      ground arith,
      record {
        sound = write_file-IsSound tools id content b h;
        views = λ j. ground (arith, write_file-view tools id content b h j);
      },
    )
    | inr (i, c, e, f, good) ↦
        let same = good.same_digest in
        let count = good.referred in
        elim (string_discrete i.checksum (tools.sha256 content)) [
          | yes p ↦ (
            referenced i,
            write_metadata id (referenced i) b,
            ground arith,
            record {
              sound = write_metadata-IsSound tools id c b h (referenced i) f (record {
                same_id = good.same_id;
                same_size = good.same_size;
                same_digest = good.same_digest;
                referred = omega arith;
              });
              views = λ j. ground (arith, write_metadata-view tools id c b h (referenced i) f j);
            },
          )
          | no n ↦ (
            new_info id (length content) (tools.sha256 content),
            write_file id content (tools.sha256 content) b,
            ground arith,
            record {
              sound = write_file-IsSound tools id content b h;
              views = λ j. ground (arith, write_file-view tools id content b h j);
            },
          )
        ]
  ]

  pub delete_block-Changed :
      (b : FileBackend)
      → IsSound tools b
      → (after : FileBackend) × (delete_block id b ≡ (ok (is_some (view b id)), after))
        × Changed drop_reference b after
  unfolding delete_block view
  delete_block-Changed b h = elim (cases_at tools id b h) [
    | inl (e, f) ↦ (b, ground arith, record { sound = h; views = λ j. ground arith })
    | inr (i, c, e, f, good) ↦
        let same = good.same_digest in
        let count = good.referred in
        elim (Bool-cases (leb i.reference_count 1)) [
          | inl t ↦ (
            remove_files id b,
            ground arith,
            record {
              sound = remove_files-IsSound tools id c b h;
              views = λ j. ground (arith, remove_files-view tools id c b h j);
            },
          )
          | inr t ↦ (
            write_metadata id (released i) b,
            ground arith,
            record {
              sound = write_metadata-IsSound tools id c b h (released i) f (record {
                same_id = good.same_id;
                same_size = good.same_size;
                same_digest = good.same_digest;
                referred = ground arith;
              });
              views = λ j. ground (arith, write_metadata-view tools id c b h (released i) f j);
            },
          )
        ]
  ]

  pub read_block-returns :
      (b : FileBackend)
      → IsSound tools b
      → (after : FileBackend) × (read_block id b ≡ (read_result (view b id), after))
        × Changed (λ s. s) b after
  unfolding read_block view
  read_block-returns b h = elim (cases_at tools id b h) [
    | inl (e, f) ↦ (b, ground arith, record { sound = h; views = λ j. ground arith })
    | inr (i, c, e, f, good) ↦ (
      count_read (length c) b,
      ground arith,
      record {
        sound = record {
          files_dict = h.files_dict;
          metadata_dict = h.metadata_dict;
          both = h.both;
          described = h.described;
        };
        views = λ j. ground arith;
      },
    )
  ]

-- A change that changes nothing.
pub Changed-same :
    (tools : Tools) (id : String) (b after : FileBackend)
    → Changed tools id (λ s. s) b after
    → (j : String) → view after j ≡ view b j
Changed-same tools id b after ch j = ch.views j ∙ by_key (string_discrete id j)
  where
    by_key : (d : Dec (id ≡ j)) → ite d (view b id) (view b j) ≡ view b j
    by_key (yes p) = ap (view b) p
    by_key (no n) = refl
