-- ===== src/Files/Tests/Memory.antt =====
-- A storage in memory.
use Prim.Native.String.{◌++◌}
use zhuo_stack.Prelude.{
  ◌≡◌, ◌≢◌, refl, inl, inr, Bool, true, false, ◌&&◌, Option, none, some, String, ◌==◌, arith,
  if◌then◌else◌, is_some, Bool-cases, text_cases, eq_refl,
}
use zhuo_stack.Files.Storage.{
  FileStorageType, local, aliyun, tencent, Place, Erasure, erased, absent, failed, Backend,
  type_text,
}

abbrev Cells : Type 0
Cells = FileStorageType → String → Option String

abbrev same_place : Place → Place → Bool
same_place p q = type_text p.0 == type_text q.0 && p.1 == q.1

same_place_refl : (t : FileStorageType) (k : String) → same_place (t, k) (t, k) ≡ true
same_place_refl local k = eq_refl k
same_place_refl aliyun k = eq_refl k
same_place_refl tencent k = eq_refl k

same_place-ne :
    (t u : FileStorageType) (k j : String)
    → ◌≢◌ {A = Place} (u, j) (t, k)
    → same_place (u, j) (t, k) ≡ false
same_place-ne local local k j n = elim (text_cases j k) [
  | inl (_, e) ↦ absurd (n (λ i. (local, e i)))
  | inr (b, _) ↦ b
]
same_place-ne local aliyun k j n = refl
same_place-ne local tencent k j n = refl
same_place-ne aliyun local k j n = refl
same_place-ne aliyun aliyun k j n = elim (text_cases j k) [
  | inl (_, e) ↦ absurd (n (λ i. (aliyun, e i)))
  | inr (b, _) ↦ b
]
same_place-ne aliyun tencent k j n = refl
same_place-ne tencent local k j n = refl
same_place-ne tencent aliyun k j n = refl
same_place-ne tencent tencent k j n = elim (text_cases j k) [
  | inl (_, e) ↦ absurd (n (λ i. (tencent, e i)))
  | inr (b, _) ↦ b
]

abbrev put_cell : FileStorageType → String → Option String → Cells → Cells
put_cell t k v s u j = if same_place (u, j) (t, k) then v else s u j

pub put_cell-same :
    (t : FileStorageType) (k : String) (v : Option String) (s : Cells) → put_cell t k v s t k ≡ v
put_cell-same t k v s = rw (same_place_refl t k) refl

pub put_cell-other :
    (t u : FileStorageType) (k j : String) (v : Option String) (s : Cells)
    → ◌≢◌ {A = Place} (u, j) (t, k)
    → put_cell t k v s u j ≡ s u j
put_cell-other t u k j v s n = rw (same_place-ne t u k j n) refl

-- One path of the disk does not let its file go.
abbrev pub is_held : String → Bool
is_held k = k == "/uploads/held.txt"

abbrev erase_cell : FileStorageType → String → Cells → Erasure × Cells
erase_cell t k s =
    if is_held k
    then (failed, s)
    else (if is_some (s t k) then erased else absent, put_cell t k none s)

pub erase_cell-gone :
    (t : FileStorageType) (k : String) (s : Cells)
    → (erase_cell t k s).0 ≡ erased
    → (erase_cell t k s).1 t k ≡ none
erase_cell-gone t k s h = elim (Bool-cases (is_held k)) [
  | inl e ↦ absurd (stays (rw e at h))
  | inr e ↦ rw e (put_cell-same t k none s)
]
  where
    stays : failed ≡ erased → ⊥
    stays e = ground arith

pub erase_cell-other :
    (t u : FileStorageType) (k j : String) (s : Cells)
    → ◌≢◌ {A = Place} (u, j) (t, k)
    → (erase_cell t k s).1 u j ≡ s u j
erase_cell-other t u k j s n = elim (Bool-cases (is_held k)) [
  | inl e ↦ rw e refl
  | inr e ↦ rw e (put_cell-other t u k j none s n)
]

abbrev pub memory_backend : Backend
memory_backend = record {
  State = Cells;
  Bytes = String;
  write = λ t k b s. (true, put_cell t k (some b) s);
  erase = erase_cell;
  read = λ t k s. s t k;
  read-write = λ t k b s h. put_cell-same t k (some b) s;
  read-write_other = λ t u k j b s n. put_cell-other t u k j (some b) s n;
  read-erase = erase_cell-gone;
  read-erase_other = erase_cell-other;
  resolve = λ k. "/uploads/" ++ k;
  storage_root = "/uploads";
}
