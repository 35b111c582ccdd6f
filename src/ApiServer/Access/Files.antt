-- ===== src/ApiServer/Access/Files.antt =====
-- apiserver/server: GetSuggestions of suggestion.go and ListCosFiles of task.go, which are behind CheckLogin
-- and do not look at who asks. The object storage is given: ListObjects and PreSign may fail.
use Prim.Native.String.{◌++◌}
use mathlib.Core.List.{Sublistᴰ}
use mini_drop.Base.{
  String, ◌==◌, string_eq, if◌then◌else◌, Option, none, some, List, [], ◌∷◌, map, refl,
}
use mini_drop.ApiServer.Tasks.{Answer, server_error}

pub record FileItem : Type 0 where
  pub filename : String
  pub url : String

pub data Found {ℓ} (A : Type ℓ) : Type ℓ where
  items : List A → Found A
  refused : Answer → Found A

-- The rows with the task's id, as the database finds them.
unfoldable pub get_suggestions {ℓ} : {A : Type ℓ} → String → (String → Option (List A)) → Found A
get_suggestions tid find = elim (find tid) [
  | none ↦ refused (server_error 500 "db error")
  | some rows ↦ items rows
]

-- A key that cannot be signed is left out.
abbrev pub keep_signed : String → Option String → List FileItem → List FileItem
keep_signed key none files = files
keep_signed key (some url) files = record { filename = key; url = url } ∷ files

abbrev pub signed_files : (String → Option String) → List String → List FileItem
signed_files presign [] = []
signed_files presign (key ∷ keys) = keep_signed key (presign key) (signed_files presign keys)

abbrev pub files_of : (String → Option String) → Option (List String) → Found FileItem
files_of presign none = refused (server_error 500 "storage error")
files_of presign (some keys) = items (signed_files presign keys)

unfoldable pub list_cos_files :
    String → (String → Option (List String)) → (String → Option String) → Found FileItem
list_cos_files tid list_objects presign =
    if tid == ""
    then refused (record { http = 400; code = 4000001; text = "tid is required" })
    else files_of presign (list_objects (tid ++ "/"))

filenames : List FileItem → List String
filenames files = map (λ f. f.filename) files

keep_signed-Sublist :
    (key : String) (keys : List String) (url : Option String) (files : List FileItem)
    → Sublistᴰ (filenames files) keys
    → Sublistᴰ (filenames (keep_signed key url files)) (key ∷ keys)
unfolding filenames
keep_signed-Sublist key keys none files h = Sublistᴰ.cons h
keep_signed-Sublist key keys (some url) files h = Sublistᴰ.cons-cons refl h

-- The files are among the objects that the storage lists, in their order.
signed_files-Sublist :
    (presign : String → Option String) (keys : List String)
    → Sublistᴰ (filenames (signed_files presign keys)) keys
unfolding filenames
signed_files-Sublist presign [] = Sublistᴰ.slnil
signed_files-Sublist presign (key ∷ keys) =
    keep_signed-Sublist key keys (presign key) (signed_files presign keys)
      (signed_files-Sublist presign keys)
