-- ===== src/Installer/Paths.antt =====
-- The names that installer/install_hooks.py gives to files beside the settings file.
use silicon_office.Prelude.{String, ◌<>◌, ◌≡◌, ◌≢◌, ap, ◌∙◌, Bool, true, false, eqb}
use silicon_office.Installer.Files.{tmp_path, backup_path}
use text.Mathlib.TextLemmas.{append_cancel_left, append-nil}
use Prim.Native.Char.{code}
use Prim.Native.String.append

abbrev pub is_empty : String → Bool
is_empty String.[] = true
is_empty (String.◌∷◌ _ _) = false

pub append-differs : (path name : String) → is_empty name ≡ false → path ≢ path <> name
append-differs path name n e =
    let h : is_empty "" ≡ is_empty name =
      ap is_empty (append_cancel_left path "" name (append-nil path ∙ e)) in
    cc (h, n)

pub is_empty-backup : (ts : String) → is_empty (".backup." <> ts) ≡ false
is_empty-backup ts = ap is_empty (append.cons "." "backup." ts)

-- Whether the second character is a "b".
is_b_second : String → Bool
is_b_second (String.◌∷◌ _ (String.◌∷◌ c _)) = eqb (code c) 98
is_b_second _ = false

is_b_second-backup : (ts : String) → is_b_second (".backup." <> ts) ≡ true
unfolding is_b_second
is_b_second-backup ts =
    ap is_b_second
      (append.cons "." "backup." ts ∙ ap (λ s. String.◌∷◌ "." s) (append.cons "b" "ackup." ts))

pub tmp_path-backup_path : (path ts : String) → tmp_path path ≢ backup_path path ts
unfolding is_b_second
tmp_path-backup_path path ts e =
    let h : is_b_second ".tmp" ≡ is_b_second (".backup." <> ts) =
      ap is_b_second (append_cancel_left path ".tmp" (".backup." <> ts) e) in
    cc (h, is_b_second-backup ts)
