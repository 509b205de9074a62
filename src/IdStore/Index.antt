-- ===== src/IdStore/Index.antt =====
-- `truncindex.TruncIndex` of the vendored docker package: the operations that the stores call, and
-- what its documentation says of them, by the set of the ids that it holds.
use cri.Base.{String, Bool, true, false, ◌≡◌, if◌then◌else◌, str_eq}
use cri.Base.Errors.{Error, Result, ok}

-- The result of `Get`: the one id with the prefix, `truncindex.ErrNotExist`, or another error.
pub data Found : Type 0 where
  found : String → Found
  missing : Found
  refused : Error → Found

pub record TruncIndex : Type 1 where
  pub Index : Type 0
  pub empty : Index
  pub add : String → Index → Result Index
  pub get : Index → String → Found
  pub delete : String → Index → Index
  pub has : Index → String → Bool
  pub has-empty : (k : String) → has empty k ≡ false
  pub has-add :
      (id k : String) (i i' : Index)
      → add id i ≡ ok i'
      → has i' k ≡ (if str_eq id k then true else has i k)
  pub has-delete :
      (id k : String) (i : Index) → has (delete id i) k ≡ (if str_eq id k then false else has i k)
  -- What is found is held; an id of which nothing is a prefix is not held.
  pub get_found : (i : Index) (s id : String) → get i s ≡ found id → has i id ≡ true
  pub get_missing : (i : Index) (s : String) → get i s ≡ missing → has i s ≡ false
