-- ===== src/Vfs/Filter.antt =====
-- src/vfs/filter.rs
use git_nfs.Prelude.{Bool, true, ◌||◌, ℕ, List, if◌then◌else◌, str_eq}
use git_nfs.Text.{ascii, starts_with}

unfoldable pub is_apple_metadata : List ℕ → Bool
unfolding starts_with
is_apple_metadata name =
    if starts_with name (ascii "._")
    then true
    else str_eq name (ascii ".DS_Store")
      || str_eq name (ascii ".localized")
      || str_eq name (ascii ".Spotlight-V100")
      || str_eq name (ascii ".Trashes")
      || str_eq name (ascii ".fseventsd")
      || str_eq name (ascii ".TemporaryItems")
      || str_eq name (ascii ".VolumeIcon.icns")
