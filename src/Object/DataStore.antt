-- ===== src/Object/DataStore.antt =====
-- CDataStore, a message to read from, which is not code of the repository: its calls as an interface,
-- and what the readers rely on. A read that does not fit leaves the place behind the end.
pub mod Reads
pub mod Places
use whoa.Base.{ℕ, ◌+◌, ◌*◌, ◌≡◌, List, [], ◌∷◌, length, take, drop, leb, if◌then◌else◌, ◌≤◌}

pub record DataStore : Type 1 where
  pub Store : Type 0
  -- Get of a number of so many bytes
  pub get : ℕ → Store → ℕ × Store
  pub get_data_in_situ : ℕ → Store → Store
  pub tell : Store → ℕ
  pub size : Store → ℕ
  pub seek : ℕ → Store → Store

-- The place after a read of n bytes from place p of so many.
abbrev pub read_to : ℕ → ℕ → ℕ → ℕ
read_to size p n = if leb (p + n) size then p + n else size + 1

-- The number that bytes stand for, the lowest first.
abbrev pub little_endian : List ℕ → ℕ
little_endian [] = 0
little_endian (b ∷ bs) = b + little_endian bs * 256

pub record DataStoreLaws (d : DataStore) : Type 0 where
  pub content : d.Store → List ℕ
  pub size_content : (s : d.Store) → d.size s ≡ length (content s)
  pub content-get : (n : ℕ) (s : d.Store) → content (d.get n s).1 ≡ content s
  pub content-data : (n : ℕ) (s : d.Store) → content (d.get_data_in_situ n s) ≡ content s
  pub content-seek : (p : ℕ) (s : d.Store) → content (d.seek p s) ≡ content s
  pub tell-get :
      (n : ℕ) (s : d.Store) → d.tell (d.get n s).1 ≡ read_to (length (content s)) (d.tell s) n
  pub tell-data :
      (n : ℕ) (s : d.Store)
      → d.tell (d.get_data_in_situ n s) ≡ read_to (length (content s)) (d.tell s) n
  pub tell-seek : (p : ℕ) (s : d.Store) → d.tell (d.seek p s) ≡ p
  pub get_value :
      (n : ℕ) (s : d.Store)
      → d.tell s + n ≤ length (content s)
      → (d.get n s).0 ≡ little_endian (take n (drop (d.tell s) (content s)))

-- A function that reads from a message, and the sequence of two.
infixl 5 ◌>>=◌ ◌>>◌
abbrev pub ◌>>=◌ : {S A B : Type 0} → (S → A × S) → (A → S → B × S) → S → B × S
◌>>=◌ m f s = f (m s).0 (m s).1

abbrev pub ◌>>◌ : {S A B : Type 0} → (S → A × S) → (S → B × S) → S → B × S
◌>>◌ m k s = k (m s).1

abbrev pub pure : {S A : Type 0} → A → S → A × S
pure a s = (a, s)
