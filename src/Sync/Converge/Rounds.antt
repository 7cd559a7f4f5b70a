-- ===== src/Sync/Converge/Rounds.antt =====
-- The loop of a synchronisation: the files stay, and the map holds the text of each.
use mathlib.Core.Path.{subst}
use llmd.Prelude.{
  ℕ, suc, ◌≡◌, refl, sym, ap, ◌∙◌, Bool, true, false, ◌||◌, List, [], ◌∷◌, some, Bytes, str_eq,
  str_eq→eq, if◌then◌else◌, ok, arith, All,
}
use llmd.Text.{contains_line}
use llmd.Path.{normalise}
use llmd.Store.Invariant.{IsValid}
use llmd.Service.{Service, State, Action, return, ◌>>=◌, ◌>>◌}
use llmd.Service.Inversion.{bind_ok}
use llmd.Service.Write.{write}
use llmd.Sync.{Entries, read_file}
use llmd.Sync.Files.{mirror}
use llmd.Sync.Run.{Options, store_files, default_message}
use llmd.Sync.Again.{to_option, stored}
use llmd.Sync.Converge.Step.{texts_of, write_own}

abbrev pub IsNormal : List Bytes → Type 0
IsNormal = All (λ p. normalise p ≡ ok p)

-- after some files were written: the files are the same, and the map has their texts
abbrev pub AfterFiles : List Bytes → State Entries → State Entries → Type 0
AfterFiles paths st st' =
    (st'.files ≡ st.files)
    × IsValid st'.db
    × ((q : Bytes)
        → texts_of st'.db q
          ≡ (if contains_line paths q then to_option (read_file st.files q) else texts_of st.db q))

after_more :
    (p content : Bytes) (paths : List Bytes) (st st' st'' : State Entries)
    → read_file st.files p ≡ ok content
    → st'.files ≡ st.files
    → ((q : Bytes) → texts_of st'.db q ≡ (if str_eq p q then some content else texts_of st.db q))
    → AfterFiles paths st' st''
    → AfterFiles (p ∷ paths) st st''
unfolding contains_line
after_more p content paths st st' st'' h same first (same', v, more) =
    (same' ∙ same, v, λ q. by_path q (str_eq p q) refl)
  where
    by_path :
        (q : Bytes) (here : Bool)
        → str_eq p q ≡ here
        → texts_of st''.db q ≡ (
            if here || contains_line paths q
            then to_option (read_file st.files q)
            else texts_of st.db q)
    by_path q true e =
        let readable = ap (read_file st.files) (sym (str_eq→eq p q e)) ∙ h in
        rw (more q, same, first q, e, readable) (ground arith)
    by_path q false e = rw (more q, same, first q, e) (ground arith)

not_dry :
    {A B : Type 0} (m : Action Entries A) (f : Action Entries B) (g : A → Action Entries B)
    (st : State Entries) (b : Bool)
    → b ≡ false
    → (m >>= λ a. if b then f else g a) st ≡ (m >>= g) st
not_dry m f g st true h = cc
not_dry m f g st false h = refl

module _ (s : Service) (keys : ℕ → Bytes) (now : ℕ → ℕ) (opts : Options)
    (real : opts.dry_run ≡ false) where
  abbrev own : ℕ → Bytes → Bytes → Action Entries (Unit {0})
  own n p content =
      write s mirror p content opts.author (default_message opts.message) (keys n) (now n)

  -- one round of the loop that is no dry run
  abbrev round : ℕ → Bytes → Action Entries ℕ → Action Entries ℕ
  round n p rest = do
    content ← (λ st. (read_file st.files p, st))
    own n p content
    written ← rest
    return (suc written)

  after_round :
      (n : ℕ) (p : Bytes) (paths : List Bytes) (st : State Entries) (k : ℕ)
      (rest : Action Entries ℕ)
      → normalise p ≡ ok p
      → IsValid st.db
      → ((st' : State Entries) (m : ℕ)
          → IsValid st'.db
          → (rest st').0 ≡ ok m
          → AfterFiles paths st' (rest st').1)
      → (round n p rest st).0 ≡ ok k
      → AfterFiles (p ∷ paths) st (round n p rest st).1
  after_round n p paths st k rest normal v ih done =
      let (content, readable, done1, e1) = bind_ok (λ st. (read_file st.files p, st)) _ st k done in
      let (u, wrote, done2, e2) = bind_ok (own n p content) _ st k done1 in
      let (m, stored, _, e3) =
        bind_ok rest (λ written. return (suc written)) (own n p content st).1 k done2 in
      let (same, v', first) =
        write_own s p content opts.author (default_message opts.message) (keys n) (now n) st normal
          v readable wrote in
      subst (AfterFiles (p ∷ paths) st) (sym (e1 ∙ (e2 ∙ e3))) (
        after_more p content paths st (own n p content st).1 (rest (own n p content st).1).1
          readable same first (ih (own n p content st).1 m v' stored))

  round_lem :
      (n : ℕ) (p : Bytes) (paths : List Bytes) (st : State Entries)
      → store_files s keys now opts n (p ∷ paths) st
        ≡ round n p (store_files s keys now opts (suc n) paths) st
  unfolding store_files
  round_lem n p paths st =
      not_dry (λ st. (read_file st.files p, st)) (store_files s keys now opts (suc n) paths)
        (λ content.
          own n p content
          >> (store_files s keys now opts (suc n) paths >>= λ written. return (suc written)))
        st opts.dry_run real

  pub after_store :
      (n : ℕ) (paths : List Bytes) (st : State Entries) (k : ℕ)
      → IsNormal paths
      → IsValid st.db
      → (store_files s keys now opts n paths st).0 ≡ ok k
      → AfterFiles paths st (store_files s keys now opts n paths st).1
  unfolding store_files contains_line
  after_store n [] st k normal v done = (refl, v, λ q. refl)
  after_store n (p ∷ paths) st k normal v done =
      subst (λ x. x.0 ≡ ok k → AfterFiles (p ∷ paths) st x.1) (sym (round_lem n p paths st))
        (after_round n p paths st k _ normal.0 v
          (λ st' m. after_store (suc n) paths st' m normal.1))
        done
