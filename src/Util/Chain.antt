-- ===== src/Util/Chain.antt =====
-- lib/src/util/io.rs: `ChainReader` as a reader.
use portable_network_archive.Prelude.{
  ℕ, zero, suc, ◌≤◌, ◌≡◌, refl, sym, ap, ◌∙◌, Option, none, some, List, [], ◌∷◌, ◌++◌, append_assoc,
  Bytes, length, take, drop, take-append-drop, length-take, arith, ok_or, ErrorKind,
  split_at_checked,
}
use portable_network_archive.Reader.{Reader, Agrees, read_exact, read_exact-Agrees}
use portable_network_archive.Util.{ChainReader, new_reader, read, read_from, read_current}

abbrev pub join : List Bytes → Bytes
join [] = []
join (bytes ∷ slices) = bytes ++ join slices

abbrev pub left_of : Option Bytes → List Bytes → Bytes
left_of none inner = []
left_of (some current) inner = current ++ join inner

-- All that a chain has left: nothing once its current slice is gone.
abbrev pub contents : ChainReader → Bytes
contents r = left_of r.current r.inner

read_from_takes :
    (n : ℕ) (current : Bytes) (inner : List Bytes)
    → current ++ join inner
      ≡ (read_from n current inner).0 ++ contents (read_from n current inner).1
read_from_takes n (b ∷ bs) inner =
    ap (λ xs. xs ++ join inner) (sym (take-append-drop n (b ∷ bs)))
    ∙ append_assoc (take n (b ∷ bs)) (drop n (b ∷ bs)) (join inner)
read_from_takes n [] [] = refl
read_from_takes n [] (next ∷ inner) = read_from_takes n next inner

read_from_le :
    (n : ℕ) (current : Bytes) (inner : List Bytes) → length (read_from n current inner).0 ≤ n
read_from_le n (b ∷ bs) inner = omega (arith, length-take n (b ∷ bs))
read_from_le n [] [] = omega arith
read_from_le n [] (next ∷ inner) = read_from_le n next inner

read_from_end :
    (n : ℕ) (current : Bytes) (inner : List Bytes)
    → (read_from (suc n) current inner).0 ≡ []
    → current ++ join inner ≡ []
read_from_end n (b ∷ bs) inner e = cc
read_from_end n [] [] e = refl
read_from_end n [] (next ∷ inner) e = read_from_end n next inner e

current_takes :
    (n : ℕ) (current : Option Bytes) (inner : List Bytes)
    → left_of current inner
      ≡ (read_current n current inner).0 ++ contents (read_current n current inner).1
current_takes n none inner = refl
current_takes n (some current) inner = read_from_takes n current inner

current_le :
    (n : ℕ) (current : Option Bytes) (inner : List Bytes)
    → length (read_current n current inner).0 ≤ n
current_le n none inner = omega arith
current_le n (some current) inner = read_from_le n current inner

current_end :
    (n : ℕ) (current : Option Bytes) (inner : List Bytes)
    → (read_current (suc n) current inner).0 ≡ []
    → left_of current inner ≡ []
current_end n none inner e = refl
current_end n (some current) inner e = read_from_end n current inner e

pub read_takes : (r : ChainReader) (n : ℕ) → contents r ≡ (read r n).0 ++ contents (read r n).1
unfolding read
read_takes r zero = refl
read_takes r (suc n) = current_takes (suc n) r.current r.inner

pub read_le : (r : ChainReader) (n : ℕ) → length (read r n).0 ≤ n
unfolding read
read_le r zero = omega arith
read_le r (suc n) = current_le (suc n) r.current r.inner

pub read_end : (r : ChainReader) (n : ℕ) → (read r (suc n)).0 ≡ [] → contents r ≡ []
unfolding read
read_end r n e = current_end n r.current r.inner e

abbrev pub chain_reader : Reader
chain_reader = record {
  State = ChainReader;
  read = read;
  contents = contents;
  read_takes = read_takes;
  read_le = read_le;
  read_end = read_end;
}

contents-new_reader : (slices : List Bytes) → contents (new_reader slices) ≡ join slices
contents-new_reader [] = refl
contents-new_reader (first ∷ inner) = refl

-- `read_exact` over a `ChainReader` of slices takes the next bytes of the slices joined and leaves
-- what follows them, or reports the end, wherever the slices are cut.
pub read_exact-new_reader :
    (slices : List Bytes) (n : ℕ)
    → Agrees chain_reader
        (ok_or (split_at_checked (join slices) n) ErrorKind.unexpected_eof)
        (read_exact chain_reader n (new_reader slices))
read_exact-new_reader slices n =
    rw (← contents-new_reader slices) (read_exact-Agrees chain_reader n (new_reader slices))
