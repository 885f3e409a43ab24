-- ===== src/Config/File.antt =====
-- internal/config/config.go: Load, Save and Exists. The file system, JSON and YAML are interfaces.
use gpuswarm.Common.{
  Bool, true, Option, none, some, Str, str, str_eq, to_lower, [], ◌∷◌, if◌then◌else◌, Result, ok,
  err, ◌≡◌, refl, ap, ◌∙◌, ◌==◌,
}
use gpuswarm.Common.Files.{FileSystem}
use gpuswarm.Config.{Config}

-- A format: a configuration as a text, and a text over a configuration, whose fields it replaces.
pub record Format (F : Type 0) : Type 0 where
  pub marshal : Config F → Result Str Str
  pub unmarshal : Config F → Str → Result Str (Config F)

-- filepath.Ext: from the last dot of the last element of a path on.
unfoldable pub ext_after : Str → Str → Str
ext_after found [] = found
ext_after found (c ∷ path) =
    ext_after (if c == b'/' then [] else if c == b'.' then c ∷ path else found) path

unfoldable pub is_json : Str → Bool
is_json path = str_eq (to_lower (ext_after [] path)) (str ".json")

module _ {F : Type 0} (fs : FileSystem) (json yaml : Format F) where
  open fs use {Disk, read, stat, mkdir_all, write, dir}

  unfoldable pub format_of : Str → Format F
  format_of path = if is_json path then json else yaml

  unfoldable pub parsed : Format F → Config F → Option Str → Result Str (Config F)
  parsed format def none = err (str "cannot be read")
  parsed format def (some b) = format.unmarshal def b

  -- `def` is Default's configuration.
  unfoldable pub load : Config F → Disk → Str → Result Str (Config F)
  load def d path = parsed (format_of path) def (read d path)

  unfoldable pub write_config : Disk → Str → Result Str Str → Disk × Option Str
  write_config d path (err e) = (d, some (str "marshal config"))
  write_config d path (ok b) = write d path b

  unfoldable pub save_in : Str → Config F → Disk × Option Str → Disk × Option Str
  save_in path cfg (d, some e) = (d, some e)
  save_in path cfg (d, none) = write_config d path ((format_of path).marshal cfg)

  -- Save: the file system after it, and the error.
  unfoldable pub save : Disk → Str → Config F → Disk × Option Str
  save d path cfg = save_in path cfg (mkdir_all d (dir path))

  -- What main sees of a file: nothing, unless it exists, and else what Load says.
  unfoldable pub saved_config : Config F → Disk → Str → Option (Result Str (Config F))
  saved_config def d path = if stat d path then some (load def d path) else none

  loaded :
      (def cfg : Config F) (d : Disk) (path b : Str)
      → read d path ≡ some b
      → (format_of path).unmarshal def b ≡ ok cfg
      → load def d path ≡ ok cfg
  unfolding load parsed
  loaded def cfg d path b r u = ap (parsed (format_of path) def) r ∙ u

  saved_there :
      (def cfg : Config F) (d : Disk) (path : Str)
      → stat d path ≡ true
      → load def d path ≡ ok cfg
      → saved_config def d path ≡ some (ok cfg)
  unfolding saved_config
  saved_there def cfg d path s l = rw (s, l) refl

  write_config-saved :
      (def cfg : Config F) (d : Disk) (path : Str) (m : Result Str Str)
      → ((d' : Disk) (text : Str)
          → (write d' path text).1 ≡ none
          → (read (write d' path text).0 path ≡ some text)
            × (stat (write d' path text).0 path ≡ true))
      → ((text : Str) → m ≡ ok text → (format_of path).unmarshal def text ≡ ok cfg)
      → (write_config d path m).1 ≡ none
      → saved_config def (write_config d path m).0 path ≡ some (ok cfg)
  unfolding write_config
  write_config-saved def cfg d path (err e) reads back h = cc
  write_config-saved def cfg d path (ok b) reads back h =
      let there = reads d b h in
      saved_there def cfg _ path there.1 (loaded def cfg _ path b there.0 (back b refl))

  save_in-saved :
      (def cfg : Config F) (path : Str) (m : Disk × Option Str)
      → ((d' : Disk) (text : Str)
          → (write d' path text).1 ≡ none
          → (read (write d' path text).0 path ≡ some text)
            × (stat (write d' path text).0 path ≡ true))
      → ((text : Str)
          → (format_of path).marshal cfg ≡ ok text
          → (format_of path).unmarshal def text ≡ ok cfg)
      → (save_in path cfg m).1 ≡ none
      → saved_config def (save_in path cfg m).0 path ≡ some (ok cfg)
  unfolding save_in
  save_in-saved def cfg path (d, some e) reads back h = cc
  save_in-saved def cfg path (d, none) reads back h =
      write_config-saved def cfg d path _ reads back h

  -- What was saved without an error is loaded as it was, if what is written to the path is there and
  -- read, and the path's format reads back what it wrote of the configuration.
  pub saved_config-save :
      (def cfg : Config F) (d : Disk) (path : Str)
      → ((d' : Disk) (text : Str)
          → (write d' path text).1 ≡ none
          → (read (write d' path text).0 path ≡ some text)
            × (stat (write d' path text).0 path ≡ true))
      → ((text : Str)
          → (format_of path).marshal cfg ≡ ok text
          → (format_of path).unmarshal def text ≡ ok cfg)
      → (save d path cfg).1 ≡ none
      → saved_config def (save d path cfg).0 path ≡ some (ok cfg)
  unfolding save
  saved_config-save def cfg d path reads back h = save_in-saved def cfg path _ reads back h
