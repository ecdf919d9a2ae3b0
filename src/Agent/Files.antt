-- ===== src/Agent/Files.antt =====
-- agent/filesystem.go: the file operations of the agent, over the guest's file system as a parameter.
use gitvm.Base.{
  ℕ, String, Bool, true, false, Option, none, some, List, [], ◌∷◌, Result, ok, err, if◌then◌else◌,
}

-- The error of a call of package os.
pub data FsError : Type 0 where
  not_exist denied : FsError

-- An error that the agent passes on; `%w` keeps the error that it wraps.
pub data FileError : Type 0 where
  cause : FsError → FileError
  wrapped : String → String → FileError → FileError

-- `os.IsNotExist`: it does not look into an error that wraps another.
unfoldable pub is_not_exist : FileError → Bool
is_not_exist (cause not_exist) = true
is_not_exist _ = false

pub record FileInfo : Type 0 where
  pub name : String
  pub is_dir : Bool
  pub size : ℕ
  pub mode : String

-- An entry of a directory: its size and mode, unless `Info` fails.
pub record DirEntry : Type 0 where
  pub name : String
  pub is_dir : Bool
  pub info : Option (ℕ × String)

-- `os.ReadFile` and the like; `dir` is `filepath.Dir`.
pub record FileSystem (W : Type 0) : Type 0 where
  pub dir : String → String
  pub read_file : String → W → Result FsError String
  pub read_dir : String → W → Result FsError (List DirEntry)
  pub stat : String → W → Result FsError FileInfo
  pub mkdir_all : String → W → Result FsError (Unit {0}) × W
  pub write_file : String → String → W → Result FsError (Unit {0}) × W
  pub remove_all : String → W → Result FsError (Unit {0}) × W

-- `fmt.Errorf("VERB %s: %w", path, err)`
unfoldable pub wrap : {A : Type 0} → String → String → Result FsError A → Result FileError A
wrap verb path (ok a) = ok a
wrap verb path (err e) = err (wrapped verb path (cause e))

unfoldable pub infos_of : List DirEntry → List FileInfo
infos_of [] = []
infos_of (entry ∷ entries) = elim entry.info [
  | none ↦ infos_of entries
  | some (size, mode) ↦
      record { name = entry.name; is_dir = entry.is_dir; size = size; mode = mode }
      ∷ infos_of entries
]

module _ {W : Type 0} (fs : FileSystem W) where
  unfoldable pub read_file : String → W → Result FileError String
  unfolding wrap
  read_file path w = wrap "read" path (fs.read_file path w)

  unfoldable pub write_file : String → String → W → Result FileError (Unit {0}) × W
  unfolding wrap
  write_file path content w =
      let (made, w') = fs.mkdir_all (fs.dir path) w in
      elim made [
        | err e ↦ (err (wrapped "mkdir" (fs.dir path) (cause e)), w')
        | ok _ ↦
            let (written, w'') = fs.write_file path content w' in (wrap "write" path written, w'')
      ]

  unfoldable pub list_dir : String → W → Result FileError (List FileInfo)
  unfolding wrap infos_of
  list_dir path w = elim (fs.read_dir path w) [
    | err e ↦ err (wrapped "list" path (cause e))
    | ok entries ↦ ok (infos_of entries)
  ]

  unfoldable pub make_dir : String → W → Result FileError (Unit {0}) × W
  unfolding wrap
  make_dir path w = let (made, w') = fs.mkdir_all path w in (wrap "mkdir" path made, w')

  unfoldable pub remove_path : String → W → Result FileError (Unit {0}) × W
  unfolding wrap
  remove_path path w = let (gone, w') = fs.remove_all path w in (wrap "remove" path gone, w')

  -- `Exists`: whether there is something, and what.
  unfoldable pub exists : String → W → Result FileError (Option FileInfo)
  exists path w = elim (fs.stat path w) [
    | ok info ↦ ok (some info)
    | err e ↦ if is_not_exist (cause e) then ok none else err (cause e)
  ]
