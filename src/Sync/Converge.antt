-- ===== src/Sync/Converge.antt =====
-- A synchronisation that succeeded leaves nothing to do for the next one.
pub mod Step
pub mod Rounds
use mathlib.Core.Path.{fun_ext}
use llmd.Prelude.{
  ℕ, ◌≡◌, refl, sym, ap, ◌∙◌, Bool, true, false, List, [], ◌∷◌, Option, Bytes, length,
  if◌then◌else◌, Result, ok, arith,
}
use llmd.Text.{contains_line}
use llmd.Store.Invariant.{IsValid}
use llmd.Service.{Service, State, Action, return, ◌>>=◌, ◌>>◌}
use llmd.Service.Inversion.{bind_ok}
use llmd.Service.Read
use llmd.Sync.{Entries, Changes, no_changes, detect, read_file, is_unchanged}
use llmd.Sync.Run.{Options, Synced, store_files, apply, run, run_sync}
use llmd.Sync.Again.{to_option, stored, detect-stored}
use llmd.Sync.Converge.Step.{texts_of}
use llmd.Sync.Converge.Rounds.{IsNormal, after_store}

unchanged :
    (changed added : List Bytes)
    → is_unchanged (record { changed = changed; added = added }) ≡ true
    → Path Changes (record { changed = changed; added = added }) no_changes
unchanged [] [] h = refl
unchanged [] (p ∷ added) h = cc
unchanged (p ∷ changed) added h = cc

module _ (s : Service) where
  nothing_to_do :
      (keys : ℕ → Bytes) (now : ℕ → ℕ) (opts : Options) (st : State Entries) (c : Changes)
      → detect st.files (texts_of st.db) ≡ ok c
      → run_sync s keys now opts st ≡ apply s keys now opts c st
  unfolding run_sync run texts_of Read.list Read.normalize_prefix
  nothing_to_do keys now opts st c h = rw h refl

  module _ (keys : ℕ → Bytes) (now : ℕ → ℕ) (opts : Options) (real : opts.dry_run ≡ false) where
    -- the map after both loops
    both :
        (c : Changes) (root : Entries) (db : Bytes → Option Bytes) (q : Bytes)
        → (if contains_line c.added q
            then to_option (read_file root q)
            else if contains_line c.changed q
            then to_option (read_file root q)
            else db q)
          ≡ stored root c db q
    both c root db q = ground arith

    abbrev loops : Changes → Action Entries Synced
    loops c = do
      updated ← store_files s keys now opts 0 c.changed
      added ← store_files s keys now opts (length c.changed) c.added
      return (record { updated = updated; added = added })

    -- what holds of a synchronisation that succeeds
    abbrev Settles : State Entries → Synced → Result Synced × State Entries → Type 0
    Settles st done x =
        x.0 ≡ ok done
        → (x.1.files ≡ st.files) × (detect x.1.files (texts_of x.1.db) ≡ ok no_changes)

    after_loops :
        (c : Changes) (st : State Entries) (done : Synced)
        → detect st.files (texts_of st.db) ≡ ok c
        → IsNormal c.changed
        → IsNormal c.added
        → IsValid st.db
        → Settles st done (loops c st)
    after_loops c st done h changed added v e =
        let first = store_files s keys now opts 0 c.changed in
        let second = store_files s keys now opts (length c.changed) c.added in
        let (k, stored1, e1, s1) = bind_ok first _ st done e in
        let (m, stored2, _, s2) =
          bind_ok second (λ added. return (record { updated = k; added = added })) (first st).1 done
            e1 in
        let (same1, v1, more1) =
          after_store s keys now opts real 0 c.changed st k changed v stored1 in
        let (same2, v2, more2) =
          after_store s keys now opts real (length c.changed) c.added (first st).1 m added v1
            stored2 in
        let texts : (q : Bytes)
            → texts_of (second (first st).1).1.db q ≡ stored st.files c (texts_of st.db) q =
          λ q. rw (more2 q, same1, more1 q) (both c st.files (texts_of st.db) q) in
        rw (s1 ∙ s2) (
          same2 ∙ same1,
          ap (λ r. detect r (texts_of (second (first st).1).1.db)) (same2 ∙ same1)
              ∙ (ap (detect st.files) (fun_ext texts)
                  ∙ detect-stored st.files (texts_of st.db) c h),
        )

    after_apply :
        (c : Changes) (st : State Entries) (done : Synced)
        → detect st.files (texts_of st.db) ≡ ok c
        → IsNormal c.changed
        → IsNormal c.added
        → IsValid st.db
        → Settles st done (apply s keys now opts c st)
    unfolding apply
    after_apply c st done h changed added v = by_changes (is_unchanged c) refl
      where
        by_changes :
            (b : Bool)
            → is_unchanged c ≡ b
            → Settles st done
                ((if b then return (record { updated = 0; added = 0 }) else loops c) st)
        by_changes true k e = (refl, h ∙ ap ok (unchanged c.changed c.added k))
        by_changes false k e = after_loops c st done h changed added v e

  -- A synchronisation that succeeded leaves the files as they were, and another one finds nothing to do.
  pub run_sync-again :
      (keys keys' : ℕ → Bytes) (now now' : ℕ → ℕ) (opts opts' : Options) (st : State Entries)
      (c : Changes) (done : Synced)
      → opts.dry_run ≡ false
      → IsValid st.db
      → detect st.files (texts_of st.db) ≡ ok c
      → IsNormal c.changed
      → IsNormal c.added
      → (run_sync s keys now opts st).0 ≡ ok done
      → let after = (run_sync s keys now opts st).1 in
        (after.files ≡ st.files)
        × (run_sync s keys' now' opts' after ≡ (ok (record { updated = 0; added = 0 }), after))
  run_sync-again keys keys' now now' opts opts' st c done real v h changed added e =
      let start = nothing_to_do keys now opts st c h in
      let (same, empty) =
        after_apply keys now opts real c st done h changed added v
          (ap (λ x. x.0) (sym start) ∙ e) in
      rw start (
        same,
        nothing_to_do keys' now' opts' (apply s keys now opts c st).1 no_changes empty
            ∙ unfold apply in refl,
      )
