-- ===== src/Common/CosClient/Uploads.antt =====
-- COSClient.cpp: when the two methods succeed, and what they ask `mc` to do.
use mini_drop.Base.{String, none, List, [], ◌∷◌, ◌≡◌, ◌↔◌, arith}
use mini_drop.Base.Int.{pos, int_eq, eqb_ℤ_iff}
use mini_drop.Common.CosClient.{
  Child, fork_error, exited, killed, CosClient, child_code, alias_args, put_dest, run_command, init,
  put_file,
}

child_code_iff : (c : Child) → ((child_code c).0 ≡ pos 0) ↔ (c ≡ exited 0)
child_code_iff (fork_error message) = ground arith
child_code_iff (exited code) = ground arith
child_code_iff killed = ground arith

command_iff :
    (run : List String → Child) (file : String) (args : List String)
    → ((run_command run (file ∷ args)).0 ≡ pos 0) ↔ (run (file ∷ args) ≡ exited 0)
unfolding run_command
command_iff run file args = child_code_iff (run (file ∷ args))

-- `Init` succeeds exactly if `mc alias set` was run with the URL and the keys, and exited with 0.
pub init_iff :
    (run : List String → Child) (cos : CosClient)
    → ((init run cos).0 ≡ none) ↔ (run (alias_args cos) ≡ exited 0)
unfolding init alias_args
init_iff run cos = ground (
  arith,
  child_code_iff (run (alias_args cos)),
  eqb_ℤ_iff (run_command run (alias_args cos)).0 (pos 0),
)

-- An upload succeeds exactly if `mc cp` was run on the local file and the object's place in the
-- bucket, and exited with 0: a failed `fork`, a missing `mc` and a kill are all failures.
pub put_file_iff :
    (run : List String → Child) (cos : CosClient) (local_path cos_key : String)
    → ((put_file run cos local_path cos_key).0 ≡ none)
      ↔ (run ("mc" ∷ "cp" ∷ local_path ∷ put_dest cos cos_key ∷ []) ≡ exited 0)
unfolding put_file run_command
put_file_iff run cos local_path cos_key =
    let c = run ("mc" ∷ "cp" ∷ local_path ∷ put_dest cos cos_key ∷ []) in
    ground (arith, child_code_iff c, eqb_ℤ_iff (child_code c).0 (pos 0))
