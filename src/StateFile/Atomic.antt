-- ===== src/StateFile/Atomic.antt =====
-- runtime.go: `writeState` leaves the old state file or the whole new one, whenever it is cut short.
use mathlib.Core.Path.{subst}
use codex_daily_prewarm.Base.{
  All, Bool, Bool-cases, List, Option, [], ap, clash, false, if-both, if-false, if-true, inl, inr,
  not, refl, some, sym, true, ◌∙◌, ◌∷◌, ◌≡◌, ◌⊎◌,
}
use codex_daily_prewarm.Data.State.{RuntimeState}
use codex_daily_prewarm.StateFile.Read.{StateText}
use codex_daily_prewarm.StateFile.Write.{
  Disk, FileCall, Progress, Stored, chmod_temp, close_temp, create_temp, effect, failed_effect,
  fill_and_rename, make_dir, remove_temp, removed, rename_temp, start_write, sync_temp, synced,
  synced_content, then_call, torn, unsynced, write_state, write_temp, write_text, written_state,
}

module _ (text : StateText) (answers : FileCall → Bool) (old : Option Stored) where
  abbrev HasOld : Disk → Type 0
  HasOld d = d.at_path ≡ old

  -- Before the rename: all disks so far have the old file, and unless a call has failed, this is the
  -- temporary file.
  record IsBefore (temp : Option Stored) (p : Progress) : Type 0 where
    old_passed : All HasOld p.passed
    old_now : HasOld p.disk_now
    as_planned : (p.going ≡ false) ⊎ (p.disk_now.temporary ≡ temp)

  then_call-IsBefore :
      (c : FileCall) (temp temp' : Option Stored) (p : Progress)
      → ((d : Disk) → (effect text c d).at_path ≡ d.at_path)
      → ((d : Disk) → d.temporary ≡ temp → (effect text c d).temporary ≡ temp')
      → ((d : Disk) → (failed_effect c d).at_path ≡ d.at_path)
      → IsBefore temp p
      → IsBefore temp' (then_call text answers c p)
  unfolding then_call
  then_call-IsBefore c temp temp' p keeps leads fails t = elim (Bool-cases p.going) [
    | inr off ↦
        subst (IsBefore temp') (sym (if-true (not p.going) p _ (ap not off)))
          (record { old_passed = t.old_passed; old_now = t.old_now; as_planned = inl off })
    | inl on ↦
        let planned : p.disk_now.temporary ≡ temp = elim t.as_planned [
          | inl off ↦ clash p.going on off
          | inr e ↦ e
        ] in
        subst (IsBefore temp') (sym (if-false (not p.going) p _ (ap not on))) (
          if-both (IsBefore temp') (answers c) _ _
            (record {
              old_passed = (t.old_now, t.old_passed);
              old_now = keeps p.disk_now ∙ t.old_now;
              as_planned = inr (leads p.disk_now planned);
            })
            (record {
              old_passed = (t.old_now, t.old_passed);
              old_now = fails p.disk_now ∙ t.old_now;
              as_planned = inl refl;
            }))
  ]

  -- Before the rename the new file is synced.
  filled-IsBefore :
      (p : Progress)
      → IsBefore (some torn) p
      → IsBefore (some (synced text)) (
          then_call text answers close_temp (
            then_call text answers sync_temp
              (then_call text answers write_temp (then_call text answers chmod_temp p))))
  filled-IsBefore p t =
      then_call-IsBefore close_temp _ _ _ (λ d. refl) (λ d e. e) (λ d. refl)
        (then_call-IsBefore sync_temp (some (unsynced text)) _ _ (λ d. refl)
          (λ d e. ap synced_content e) (λ d. refl)
          (then_call-IsBefore write_temp (some torn) _ _ (λ d. refl) (λ d e. refl) (λ d. refl)
            (then_call-IsBefore chmod_temp _ _ _ (λ d. refl) (λ d e. e) (λ d. refl) t)))

  start_write-IsBefore : (d : Disk) → HasOld d → IsBefore (some torn) (start_write text answers d)
  unfolding start_write
  start_write-IsBefore d e =
      then_call-IsBefore create_temp d.temporary _ _ (λ d. refl) (λ d e. refl) (λ d. refl)
        (then_call-IsBefore make_dir d.temporary _ _ (λ d. refl) (λ d e. e) (λ d. refl)
          (record { old_passed = tt; old_now = e; as_planned = inr refl }))

  -- The file at the path is the old one or the whole new one.
  abbrev pub IsWhole : Disk → Type 0
  IsWhole d = (d.at_path ≡ old) ⊎ (d.at_path ≡ some (synced text))

  -- All disks on the way have a whole file; the last one has the new file after a success, and the
  -- old one after an error.
  pub record IsAtomic (p : Progress) : Type 0 where
    pub whole_passed : All IsWhole p.passed
    pub written_or_old :
        ((p.going ≡ true) × (p.disk_now.at_path ≡ some (synced text)))
        ⊎ ((p.going ≡ false) × (p.disk_now.at_path ≡ old))

  HasOld-IsWhole : (ds : List Disk) → All HasOld ds → All IsWhole ds
  HasOld-IsWhole [] all = tt
  HasOld-IsWhole (d ∷ ds) all = (inl all.0, HasOld-IsWhole ds all.1)

  stopped-IsAtomic :
      (temp : Option Stored) (p : Progress) → p.going ≡ false → IsBefore temp p → IsAtomic p
  stopped-IsAtomic temp p off t = record {
    whole_passed = HasOld-IsWhole p.passed t.old_passed;
    written_or_old = inr (off, t.old_now);
  }

  renamed-IsAtomic :
      (p : Progress)
      → IsBefore (some (synced text)) p
      → IsAtomic (then_call text answers rename_temp p)
  unfolding then_call
  renamed-IsAtomic p t = elim (Bool-cases p.going) [
    | inr off ↦
        subst IsAtomic (sym (if-true (not p.going) p _ (ap not off)))
          (stopped-IsAtomic (some (synced text)) p off t)
    | inl on ↦
        let planned : p.disk_now.temporary ≡ some (synced text) = elim t.as_planned [
          | inl off ↦ clash p.going on off
          | inr e ↦ e
        ] in
        subst IsAtomic (sym (if-false (not p.going) p _ (ap not on))) (
          if-both IsAtomic (answers rename_temp) _ _
            (record {
              whole_passed = (inl t.old_now, HasOld-IsWhole p.passed t.old_passed);
              written_or_old = inl (refl, planned);
            })
            (record {
              whole_passed = (inl t.old_now, HasOld-IsWhole p.passed t.old_passed);
              written_or_old = inr (refl, t.old_now);
            }))
  ]

  removed-IsAtomic : (p : Progress) → IsAtomic p → IsAtomic (removed text answers p)
  unfolding removed
  removed-IsAtomic p t = record {
    whole_passed = (elim t.written_or_old [ inl e ↦ inr e.1 | inr e ↦ inl e.1 ], t.whole_passed);
    written_or_old =
        if-both
          (λ d.
            ((p.going ≡ true) × (d.at_path ≡ some (synced text)))
            ⊎ ((p.going ≡ false) × (d.at_path ≡ old)))
          (answers remove_temp) (effect text remove_temp p.disk_now) p.disk_now t.written_or_old
          t.written_or_old;
  }

  write_text-IsAtomic : (d : Disk) → HasOld d → IsAtomic (write_text text answers d)
  unfolding fill_and_rename
  write_text-IsAtomic d e =
      let p = start_write text answers d in
      let t = start_write-IsBefore d e in
      elim (Bool-cases p.going) [
        | inl on ↦
            subst IsAtomic
              (sym (if-true p.going (removed text answers (fill_and_rename text answers p)) p on))
              (removed-IsAtomic _ (renamed-IsAtomic _ (filled-IsBefore p t)))
        | inr off ↦
            subst IsAtomic
              (sym (if-false p.going (removed text answers (fill_and_rename text answers p)) p off))
              (stopped-IsAtomic (some torn) p off t)
      ]

-- Whatever calls of `writeState` fail: after each of them, and so wherever it is cut short, the file
-- at the path is the old one or the whole new one with the written state, synced; it is the new one
-- at the end if there is no error, and the old one if there is.
pub write_state-IsAtomic :
    (s : RuntimeState) (encoded : Bool) (answers : FileCall → Bool) (d : Disk)
    → IsAtomic (written_state s) answers d.at_path (write_state s encoded answers d)
unfolding write_state
write_state-IsAtomic s true answers d =
    write_text-IsAtomic (written_state s) answers d.at_path d refl
write_state-IsAtomic s false answers d = record {
  whole_passed = tt;
  written_or_old = inr (refl, refl);
}
