-- ===== src/Extension/Changes.antt =====
-- The commands mv, write and revert of extension/document, and edit and sed of extension/edit, less
-- what they print. A text from a file or from the standard input is an argument.
use llmd.Prelude.{
  ℕ, Bool, ◌||◌, List, [], ◌∷◌, Bytes, is_empty, ltb, length, if◌then◌else◌, Result, err_usage,
  err_required,
}
use llmd.Text.{has_suffix, trim_suffix}
use llmd.Text.Numbers.{ℤ, pos, negsuc}
use llmd.Path.{slash}
use llmd.Path.Names.{base, join_path}
use llmd.Edit.{parse_line_range}
use llmd.Revert
use llmd.Revert.{Reverted}
use llmd.Sed.Run
use llmd.Service.{Service, Mirror, Action, return, fail, of_result, ◌>>=◌, ◌>>◌}
use llmd.Service.Write.{write}
use llmd.Service.Move.{move}
use llmd.Service.Edit.{edit, edit_line_range}

-- what the command line says of the author of a change
pub record Attribution : Type 0 where
  pub author : Bytes
  pub message : Bytes

-- The last argument and those before it.
abbrev snoc : Bytes → List Bytes × Bytes → List Bytes × Bytes
snoc a (rest, last) = (a ∷ rest, last)

unfoldable pub split_dest : List Bytes → List Bytes × Bytes
split_dest [] = ([], [])
split_dest (a ∷ []) = ([], a)
split_dest (a ∷ b ∷ args) = snoc a (split_dest (b ∷ args))

unfoldable pub move_target : Bool → Bytes → Bytes → Bytes
unfolding trim_suffix base join_path
move_target prefix_mode dest src =
    if prefix_mode then join_path (trim_suffix dest (slash ∷ [])) (base src) else dest

abbrev edit_text : Bytes → Bytes → List Bytes → Bytes × Bytes
edit_text old new (path ∷ a ∷ b ∷ _) = (a, b)
edit_text old new _ = (old, new)

module _ {Files : Type 0} (s : Service) (fs : Mirror Files) where
  -- The loop of runMv: the pairs of source and target. What was moved before an error stays so.
  unfoldable pub move_all : Bool → Bytes → List Bytes → Action Files (List (Bytes × Bytes))
  unfolding move_target
  move_all prefix_mode dest [] = return []
  move_all prefix_mode dest (src ∷ sources) =
      let rest = move_all prefix_mode dest sources in
      if is_empty src then fail err_required else (do
        move s fs src (move_target prefix_mode dest src)
        moved ← rest
        return ((src, move_target prefix_mode dest src) ∷ moved))

  unfoldable pub run_mv : List Bytes → Action Files (List (Bytes × Bytes))
  unfolding split_dest move_all has_suffix
  run_mv args =
      let (sources, dest) = split_dest args in
      if is_empty dest
      then fail err_required
      else move_all (ltb 1 (length sources) || has_suffix dest (slash ∷ [])) dest sources

  module _ (by : Attribution) (key : Bytes) (now : ℕ) where
    -- `input` is what was read from the file or the standard input.
    unfoldable pub run_write : List Bytes → Result Bytes → Action Files (Unit {0})
    run_write (path ∷ content ∷ _) input =
        if is_empty content
        then fail err_required
        else write s fs path content by.author by.message key now
    run_write (path ∷ []) input = do
      content ← of_result input
      if is_empty content
          then fail err_required
          else write s fs path content by.author by.message key now
    run_write [] input = fail err_usage

    -- `number` is what fmt.Sscanf reads of the second argument.
    unfoldable pub run_revert : Bytes → List Bytes → Result ℤ → Action Files Reverted
    run_revert key_flag [] number =
        if is_empty key_flag
        then fail err_usage
        else Revert.run s fs [] 0
            (record { author = by.author; message = by.message; key = key_flag }) key now
    run_revert key_flag (target ∷ []) number =
        Revert.run s fs target 0
          (record { author = by.author; message = by.message; key = key_flag }) key now
    run_revert key_flag (target ∷ _ ∷ _) number = do
      version ← of_result number
      revert_to target version
      where
        revert_to : Bytes → ℤ → Action Files Reverted
        revert_to target (negsuc _) = fail err_usage
        revert_to target (pos version) =
            if ltb version 1
            then fail err_usage
            else Revert.run s fs target version
                (record { author = by.author; message = by.message; key = key_flag }) key now

    unfoldable pub run_edit_line_range : Bytes → Bytes → Result Bytes → Action Files (Unit {0})
    unfolding parse_line_range
    run_edit_line_range path line_range input = do
      range ← of_result (parse_line_range line_range)
      replacement ← of_result input
      edit_line_range s fs path replacement
          (record { start = range.0; end = range.1; author = by.author; message = by.message }) key
          now

    unfoldable pub run_edit_replace :
        (Bytes → Bytes) → Bool → Bytes → Bytes → Bytes → List Bytes → Action Files (Unit {0})
    run_edit_replace to_lower ignore_case old new path args =
        let text = edit_text old new args in
        if is_empty text.0
        then fail err_required
        else edit s fs to_lower path
            (record {
              old = text.0;
              new = text.1;
              case_insensitive = ignore_case;
              author = by.author;
              message = by.message;
            })
            key now

    unfoldable pub run_sed : Bool → Bytes → Bytes → Action Files Bytes
    run_sed in_place expr path =
        if in_place
        then Run.run s fs path expr (record { author = by.author; message = by.message }) key now
        else fail err_usage
