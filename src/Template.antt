-- ===== src/Template.antt =====
-- template/cache.go: where the images of a template lie. A path is the list of the parts that
-- `filepath.Join` is given; `os.Stat` is an action of the microVM's host.
use gitvm.Base.{
  ℕ, String, Bool, Option, none, some, List, [], ◌∷◌, Result, ok, err, concat, ◌/◌, ◌*◌,
  if◌then◌else◌, ◌==◌, string_comparable,
}
use gitvm.Base.Effects.{Trace, perform}
use gitvm.Firecracker.Config.{FilePath}
use gitvm.Firecracker.Vm.{Action, stat}

pub record Cache : Type 0 where
  pub dir : String

-- `home` is what `os.UserHomeDir` gives.
unfoldable pub new_cache : String → String → Cache
new_cache home dir =
    if dir == "" then record { dir = concat home "/.gitvm/templates" } else record { dir = dir }

unfoldable pub template_path : Cache → String → FilePath
template_path c name = c.dir ∷ name ∷ "rootfs.ext4" ∷ []

module _ (succeeds : Trace Action → Action → Bool) where
  -- The template's own kernel, or else the global one.
  unfoldable pub kernel_path : Cache → String → Trace Action → FilePath × Trace Action
  kernel_path c name t =
      let (found, t') = perform succeeds (stat (c.dir ∷ name ∷ "vmlinux" ∷ [])) t in
      (if found then c.dir ∷ name ∷ "vmlinux" ∷ [] else c.dir ∷ "vmlinux" ∷ [], t')

  unfoldable pub exists : Cache → String → Trace Action → Bool × Trace Action
  unfolding template_path
  exists c name t = perform succeeds (stat (template_path c name)) t

pub record DirEntry : Type 0 where
  pub name : String
  pub is_dir : Bool

-- The size, and the time of the last change as it is printed.
pub record FileStat : Type 0 where
  pub size : ℕ
  pub mod_time : String

pub data ReadDirError : Type 0 where
  not_exist unreadable : ReadDirError

pub record TemplateInfo : Type 0 where
  pub name : String
  pub path : FilePath
  pub size_mb : ℕ
  pub mod_time : String

-- `stat_of` is `os.Stat` with what it tells of a file, and `read_dir` is `os.ReadDir`.
module _ (stat_of : FilePath → Option FileStat)
    (read_dir : String → Result ReadDirError (List DirEntry)) where
  unfoldable pub info_of : Cache → DirEntry → Option TemplateInfo
  unfolding template_path
  info_of c entry =
      if entry.is_dir
      then elim (stat_of (template_path c entry.name)) [
        | none ↦ none
        | some st ↦ some (record {
          name = entry.name;
          path = template_path c entry.name;
          size_mb = st.size / (1024 * 1024);
          mod_time = st.mod_time;
        })
      ]
      else none

  -- The loop of `List`.
  unfoldable pub infos_of : Cache → List DirEntry → List TemplateInfo
  unfolding info_of
  infos_of c [] = []
  infos_of c (entry ∷ entries) =
      let rest = infos_of c entries in
      elim (info_of c entry) [ none ↦ rest | some info ↦ info ∷ rest ]

  unfoldable pub list : Cache → Result ReadDirError (List TemplateInfo)
  unfolding infos_of
  list c = elim (read_dir c.dir) [
    | err not_exist ↦ ok []
    | err unreadable ↦ err unreadable
    | ok entries ↦ ok (infos_of c entries)
  ]
