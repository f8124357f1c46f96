-- ===== src/Core/VolumeRuns.antt =====
-- core/volume_manager.py: runs of calls.
use storage_appliance_archit.Base.{
  ℕ, ◌≡◌, refl, sym, subst, Option, none, List, [], ◌∷◌, String, arith, Option-cases, inl, inr, Key,
  ok,
}
use storage_appliance_archit.Base.Dict.{Dict, lookup}
use storage_appliance_archit.Core.Volume.{
  VolumeBlock, VolumeManager, new_manager, create_volume, update_volume, delete_volume,
  resize_volume, write_block, clone_volume,
}
use storage_appliance_archit.Core.VolumeSound.{
  IsSound, create_volume-IsSound, update_volume-IsSound, delete_volume-IsSound,
  resize_volume-IsSound, write_block-IsSound,
}
use storage_appliance_archit.Core.VolumeBlocks.{clone_volume-shares}

pub data Call (K : Type 0) : Type 0 where
  create : K → ℕ → String → ℕ → String → Dict String String → Call K
  update : K → Option String → Option String → Option (Dict String String) → ℕ → Call K
  remove : K → Call K
  resize : K → ℕ → ℕ → Call K
  put : K → VolumeBlock → ℕ → ℕ → Call K
  clone : K → K → ℕ → String → String → Call K

module _ {K : Type 0} ⦃key : Key K⦄ where
  unfoldable pub step : VolumeManager K → Call K → VolumeManager K
  step m (create id now name size d tags) = (create_volume id now name size d tags m).1
  step m (update id name d tags now) = (update_volume id name d tags now m).1
  step m (remove id) = (delete_volume id m).1
  step m (resize id size now) = (resize_volume id size now m).1
  step m (put id b physical now) = (write_block id b physical now m).1
  step m (clone source id now name d) = (clone_volume source id now name d m).1

  unfoldable pub run : VolumeManager K → List (Call K) → VolumeManager K
  unfolding step
  run m [] = m
  run m (c ∷ cs) = run (step m c) cs

  -- uuid4 makes ids that no volume has.
  abbrev pub IsFresh : VolumeManager K → Call K → Type 0
  IsFresh m (create id now name size d tags) = lookup id m.volumes ≡ none
  IsFresh m (clone source id now name d) = lookup id m.volumes ≡ none
  IsFresh m _ = Unit

  abbrev pub AllFresh : VolumeManager K → List (Call K) → Type 0
  AllFresh m [] = Unit
  AllFresh m (c ∷ cs) = IsFresh m c × AllFresh (step m c) cs

  pub step-IsSound :
      (m : VolumeManager K) (c : Call K) → IsFresh m c → IsSound m → IsSound (step m c)
  unfolding step
  step-IsSound m (create id now name size d tags) f h =
      create_volume-IsSound id now name size d tags m f h
  step-IsSound m (update id name d tags now) f h = update_volume-IsSound id name d tags now m h
  step-IsSound m (remove id) f h = delete_volume-IsSound id m h
  step-IsSound m (resize id size now) f h = resize_volume-IsSound id size now m h
  step-IsSound m (put id b physical now) f h = write_block-IsSound id b physical now m h
  step-IsSound m (clone source id now name d) f h = elim (Option-cases (lookup source m.volumes)) [
    | inl e ↦
        let run : clone_volume source id now name d m ≡ (ok none, m) =
          (unfold clone_volume in ground arith) in
        subst (λ o. IsSound o.1) (sym run) h
    | inr (v, e) ↦
        let (c, m', run, shares, rest, sound) =
          clone_volume-shares source id v now name d m h e f in
        subst (λ o. IsSound o.1) (sym run) sound
  ]

  run_from-IsSound :
      (m : VolumeManager K) (cs : List (Call K)) → AllFresh m cs → IsSound m → IsSound (run m cs)
  unfolding run
  run_from-IsSound m [] f h = h
  run_from-IsSound m (c ∷ cs) f h = run_from-IsSound (step m c) cs f.1 (step-IsSound m c f.0 h)

  -- After every run of calls that create volumes under new ids, the totals of volumes and of
  -- provisioned bytes are those of the volumes that there are, the counters of each volume are the
  -- sizes of its blocks, and every block lies within its volume.
  pub run-IsSound :
      (size : ℕ) (cs : List (Call K))
      → AllFresh (new_manager size) cs
      → IsSound (run (new_manager size) cs)
  unfolding new_manager
  run-IsSound size cs f =
      run_from-IsSound (new_manager size) cs f (record {
        is_dict = tt;
        all = λ k v e. (unfold lookup in cc);
        counted = refl;
        sized = refl;
      })
