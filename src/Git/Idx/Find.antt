-- ===== src/Git/Idx/Find.antt =====
-- An object is found through the index that was written for it, and nothing else is.
use git_nfs.Prelude.{
  ℕ, zero, suc, ◌+◌, ◌-◌, ◌≤◌, ◌<◌, ◌≡◌, refl, ap, sym, ◌∙◌, List, [], ◌∷◌, ◌++◌, length, get_elem?,
  get_or, map, concat, take, drop, replicate, All, some, none, Option, arith, ltb, leb, ◌==◌, ◌||◌,
  Bool, Bool-cases, inl, inr, true, false, ok, Result-cases, append_assoc, lt→not-leb,
}
use git_nfs.Bytes.{as_u32, be32, u32_mod}
use git_nfs.Git.Tree.{Hex}
use git_nfs.Git.Builder.{compare}
use git_nfs.Git.Builder.Compare.{compare-equal}
use git_nfs.Git.Pack.{Zlib}
use git_nfs.Git.Idx.{
  PackIndex, first_byte, fanout_low, object_len, binary_search, find_offset, parse,
}
use git_nfs.Git.PackWriter.{
  ObjectEntry, sort_entries, cumulate, offset_table, index_body, be32s, create_idx_v2_data,
}
use git_nfs.Git.Idx.Search.{binary_search-PointsTo, binary_search-equal}
use git_nfs.Git.Idx.Fanout.{
  tabulate, length-tabulate, get_or-tabulate, All-tabulate, count_below, HasName,
  cumulate-count_bytes, count_below_zero,
}
use git_nfs.Git.Idx.Tables.{IsSha, IsU32, IsSmall, pack_offsets, offset_table-Small}
use git_nfs.Git.Idx.Parse.{magic, parsed, laid_out, parse-laid_out}
use git_nfs.Git.Idx.Sorted.{
  Increasing, Distinct, All-sort_entries, sort_entries-Increasing, length-sort_entries,
  sort_entries_moves, sort_entries_old, All-get_elem?,
}
use git_nfs.Git.Idx.Places.{
  names, names-get_elem?, names-PointsTo, get_elem?-slice, slice-PointsTo, count_below-le,
  lt-count_below, count_below_le_length, count_below_every,
}

-- Whatever the index holds, an object that is found has its name in the table of names, and the offset
-- answered is the one in the same place of the table of offsets.
pub find_offset_sound :
    (idx : PackIndex) (sha : List ℕ) (offset len : ℕ)
    → find_offset idx sha ≡ some (offset, len)
    → (i : ℕ) × (get_elem? idx.shas i ≡ some sha)
      × (offset ≡ get_or idx.offsets i 0)
      × (len ≡ object_len idx offset)
unfolding find_offset
find_offset_sound idx sha offset len h = go (leb high low || ltb (length idx.shas) high) refl
  where
    low : ℕ
    low = fanout_low idx (first_byte sha)

    high : ℕ
    high = get_or idx.fanout (first_byte sha) 0

    slice : List (List ℕ)
    slice = take (high - low) (drop low idx.shas)

    Found : Type 0
    Found =
        (i : ℕ) × (get_elem? idx.shas i ≡ some sha)
        × (offset ≡ get_or idx.offsets i 0)
        × (len ≡ object_len idx offset)

    found :
        (o : Option ℕ)
        → (leb high low || ltb (length idx.shas) high) ≡ false
        → binary_search (λ s. compare s sha) slice ≡ o
        → Found
    found none e g = absurd (cc (rw (find_offset, e, g) at h))
    found (some pos) e g =
        let (x, there, same) = binary_search-equal (λ s. compare s sha) slice pos g in
        let named = get_elem?-slice (λ s. compare s sha) idx.shas 0 low high pos x there in
        let answer = rw (find_offset, e, g) at h in
        let place : offset ≡ get_or idx.offsets (low + pos) 0 = cc answer in
        let room : len ≡ object_len idx (get_or idx.offsets (low + pos) 0) = cc answer in
        (
          low + pos,
          named ∙ ap {A = List ℕ} {B = Option (List ℕ)} (λ s. some s) (compare-equal x sha same),
          place,
          room ∙ ap (object_len idx) (sym place),
        )

    go : (b : Bool) → (leb high low || ltb (length idx.shas) high) ≡ b → Found
    go true e = absurd (cc (rw (find_offset, e) at h))
    go false e = found (binary_search (λ s. compare s sha) slice) e refl

-- The index of entries in their order.
abbrev pub index_of : List ℕ → List ObjectEntry → List ℕ → PackIndex
index_of name entries pack_sha =
    parsed name (tabulate 0 256 (λ i. as_u32 (count_below (suc i) entries))) (names entries)
      (pack_offsets entries) pack_sha

-- A name of 20 bytes.
abbrev pub IsEntry : ObjectEntry → Type 0
IsEntry e = HasName e × (first_byte e.oid_bytes < 256)

IsEntry-HasName : (entries : List ObjectEntry) → All IsEntry entries → All HasName entries
IsEntry-HasName [] h = tt
IsEntry-HasName (e ∷ entries) (h, hs) = (h.0, IsEntry-HasName entries hs)

IsEntry-first :
    (entries : List ObjectEntry)
    → All IsEntry entries
    → All (λ (e : ObjectEntry). first_byte e.oid_bytes < 256) entries
IsEntry-first [] h = tt
IsEntry-first (e ∷ entries) (h, hs) = (h.1, IsEntry-first entries hs)

names-IsSha : (entries : List ObjectEntry) → All HasName entries → All IsSha (names entries)
names-IsSha [] h = tt
names-IsSha (e ∷ entries) (h, hs) = (h, names-IsSha entries hs)

get_or-pack_offsets :
    (entries : List ObjectEntry) (j : ℕ) (e : ObjectEntry)
    → get_elem? entries j ≡ some e
    → get_or (pack_offsets entries) j 0 ≡ e.pack_offset
get_or-pack_offsets [] j e h = absurd (cc h)
get_or-pack_offsets (a ∷ entries) zero e h =
    let same : a ≡ e = cc h in ap {A = ObjectEntry} {B = ℕ} (λ x. x.pack_offset) same
get_or-pack_offsets (a ∷ entries) (suc j) e h = get_or-pack_offsets entries j e h

length-map_entries :
    {A : Type 0} (f : ObjectEntry → A) (entries : List ObjectEntry)
    → length (map f entries) ≡ length entries
length-map_entries f [] = refl
length-map_entries f (e ∷ entries) = ap suc (length-map_entries f entries)

module _ (name pack_sha : List ℕ) (entries : List ObjectEntry)
    (few : length entries < u32_mod) where
  abbrev idx : PackIndex
  idx = index_of name entries pack_sha

  fanout_at : (i : ℕ) → i < 256 → get_or idx.fanout i 0 ≡ count_below (suc i) entries
  fanout_at i small =
      get_or-tabulate 0 256 i (λ i. as_u32 (count_below (suc i) entries)) small
      ∙ omega (
        arith,
        count_below_le_length (suc (0 + i)) entries,
        ap (λ (k : ℕ). count_below (suc k) entries) (let e : 0 + i ≡ i = omega arith in e),
      )

  fanout_low-count_below : (b : ℕ) → b < 256 → fanout_low idx b ≡ count_below b entries
  unfolding count_below
  fanout_low-count_below b small = elim (Bool-cases (b == 0)) [
    | inl e ↦
        let zero_b : b ≡ 0 = ground arith in
        rw e (sym (ap (λ (k : ℕ). count_below k entries) zero_b ∙ count_below_zero entries))
    | inr e ↦
        let pred : suc (b - 1) ≡ b = ground arith in
        rw e (fanout_at (b - 1) (omega arith) ∙ ap (λ (k : ℕ). count_below k entries) pred)
  ]

  -- An entry is found in the index, with its offset.
  find_offset-index_of :
      (j : ℕ) (e : ObjectEntry)
      → Increasing entries
      → All HasName entries
      → get_elem? entries j ≡ some e
      → first_byte e.oid_bytes < 256
      → find_offset idx e.oid_bytes ≡ some (e.pack_offset, object_len idx e.pack_offset)
  unfolding find_offset
  find_offset-index_of j e sorted named h small =
      let b = first_byte e.oid_bytes in
      let low = count_below b entries in
      let high = count_below (suc b) entries in
      let from : low ≤ j = count_below-le b entries j e sorted named h (omega arith) in
      let to : j < high = lt-count_below (suc b) entries j e sorted named h (omega arith) in
      let len = length-map_entries (λ e. e.oid_bytes) entries in
      let fits : high ≤ length (names entries) =
        omega (arith, count_below_le_length (suc b) entries) in
      let p =
        slice-PointsTo (λ s. compare s e.oid_bytes) (names entries) j low high from to fits
          (names-PointsTo entries j e sorted h) in
      let found =
        binary_search-PointsTo (λ s. compare s e.oid_bytes)
          (take (high - low) (drop low (names entries))) (j - low) p in
      let e1 : leb high low ≡ false = lt→not-leb high low (omega arith) in
      let e2 : ltb (length (names entries)) high ≡ false = ground arith in
      let place : fanout_low idx b + (j - low) ≡ j =
        omega (arith, fanout_low-count_below b small) in
      let offset =
        ap (λ k. get_or (pack_offsets entries) k 0) place ∙ get_or-pack_offsets entries j e h in
      rw (find_offset, fanout_low-count_below b small, fanout_at b small, e1, e2, found)
        (ap {A = ℕ} {B = Option (ℕ × ℕ)} (λ o. some (o, object_len idx o)) offset)

abbrev fanout_of : List ObjectEntry → List ℕ
fanout_of entries = tabulate 0 256 (λ i. as_u32 (count_below (suc i) entries))

abbrev crcs_of : List ObjectEntry → List ℕ
crcs_of = map (λ (e : ObjectEntry). e.crc32)

abbrev body_of : List ObjectEntry → List ℕ → List ℕ
body_of entries tail =
    magic
    ++ (be32 2
        ++ laid_out (fanout_of entries) (names entries) (crcs_of entries) (pack_offsets entries)
            tail)

index_body-body_of :
    (pack_sha body : List ℕ) (entries : List ObjectEntry)
    → index_body pack_sha entries (replicate 256 0) ≡ ok body
    → All HasName entries
    → (body ≡ body_of entries pack_sha) × All IsSmall (pack_offsets entries)
unfolding index_body
index_body-body_of pack_sha body entries h named =
    let (counts, counted, table) = cumulate-count_bytes entries named in
    elim (Result-cases (offset_table entries)) [
      | inr (e, failed) ↦ absurd (cc (rw (index_body, counted, failed) at h))
      | inl (offsets, written) ↦
          let (same, small) = offset_table-Small entries offsets written in
          let layout : List ℕ → List ℕ → List ℕ =
            λ f o. magic ++ (be32 2 ++ laid_out f (names entries) (crcs_of entries) o pack_sha) in
          let made : body ≡ layout (cumulate 0 counts) offsets =
            cc (rw (index_body, counted, written) at h) in
          (made ∙ ap (λ f. layout f offsets) table ∙ ap (layout (fanout_of entries)) same, small)
    ]

append_behind_four :
    (a b c d e tail : List ℕ)
    → (a ++ (b ++ (c ++ (d ++ e)))) ++ tail ≡ a ++ (b ++ (c ++ (d ++ (e ++ tail))))
append_behind_four a b c d e tail = simp append_assoc

body_of-append :
    (entries : List ObjectEntry) (pack_sha tail : List ℕ)
    → body_of entries pack_sha ++ tail ≡ body_of entries (pack_sha ++ tail)
body_of-append entries pack_sha tail =
    ap (λ b. magic ++ (be32 2 ++ b))
      (append_behind_four (be32s (fanout_of entries)) (concat (names entries))
        (be32s (crcs_of entries)) (be32s (pack_offsets entries)) pack_sha tail)

module _ (zlib : Zlib) (hex : Hex) (sha1 : List ℕ → List ℕ) (crc : List ℕ → ℕ) where
  -- What is parsed from an index that was written: its entries in the order of their names.
  pub parse-create_idx_v2_data :
      (name pack_sha bytes : List ℕ) (entries : List ObjectEntry)
      → create_idx_v2_data zlib hex sha1 crc entries pack_sha ≡ ok bytes
      → All IsEntry entries
      → length entries < u32_mod
      → IsSha pack_sha
      → ((content : List ℕ) → IsSha (sha1 content))
      → parse name bytes ≡ ok (index_of name (sort_entries entries) pack_sha)
  unfolding create_idx_v2_data
  parse-create_idx_v2_data name pack_sha bytes entries h are few p digest =
      let es = sort_entries entries in
      let are_sorted = All-sort_entries IsEntry entries are in
      let named = IsEntry-HasName es are_sorted in
      let size = length-sort_entries entries in
      elim (Result-cases (index_body pack_sha es (replicate 256 0))) [
        | inr (e, failed) ↦ absurd (cc (rw (create_idx_v2_data, failed) at h))
        | inl (body, written) ↦
            let (made, small) = index_body-body_of pack_sha body es written named in
            let whole : bytes ≡ body ++ sha1 body = cc (rw (create_idx_v2_data, written) at h) in
            let full = length-tabulate 0 256 (λ i. as_u32 (count_below (suc i) es)) in
            ap (parse name)
              (whole ∙ ap (λ b. b ++ sha1 body) made ∙ body_of-append es pack_sha (sha1 body))
            ∙ parse-laid_out name (fanout_of es) (names es) (crcs_of es) (pack_offsets es) pack_sha
                (sha1 body) full
                (All-tabulate IsU32 0 256 (λ i. as_u32 (count_below (suc i) es)) (λ i. omega arith))
                (fanout_at name pack_sha es (omega arith) 255 (omega arith)
                  ∙ count_below_every es (IsEntry-first es are_sorted)
                  ∙ sym (length-map_entries (λ e. e.oid_bytes) es))
                (length-map_entries (λ e. e.crc32) es
                  ∙ sym (length-map_entries (λ e. e.oid_bytes) es))
                (length-map_entries (λ e. e.pack_offset) es
                  ∙ sym (length-map_entries (λ e. e.oid_bytes) es))
                (names-IsSha es named) small p (digest body)
      ]

  -- Every object of a written index is found in it after parsing, with the offset where it was written, when
  -- the names are distinct and of 20 bytes, there are fewer than 2 ^ 32, and the hash has 20 bytes.
  pub find_offset-parse :
      (name pack_sha bytes : List ℕ) (entries : List ObjectEntry) (i : ℕ) (e : ObjectEntry)
      → create_idx_v2_data zlib hex sha1 crc entries pack_sha ≡ ok bytes
      → get_elem? entries i ≡ some e
      → Distinct entries
      → All IsEntry entries
      → length entries < u32_mod
      → IsSha pack_sha
      → ((content : List ℕ) → IsSha (sha1 content))
      → (index : PackIndex) × (parse name bytes ≡ ok index)
        × (find_offset index e.oid_bytes ≡ some (e.pack_offset, object_len index e.pack_offset))
  find_offset-parse name pack_sha bytes entries i e h there distinct are few p digest =
      let es = sort_entries entries in
      let are_sorted = All-sort_entries IsEntry entries are in
      let (j, moved) = sort_entries_moves e entries i there in
      let size = length-sort_entries entries in
      let (named, small) = All-get_elem? IsEntry entries i e are there in
      (
        index_of name es pack_sha,
        parse-create_idx_v2_data name pack_sha bytes entries h are few p digest,
        find_offset-index_of name pack_sha es (omega arith) j e
            (sort_entries-Increasing entries distinct) (IsEntry-HasName es are_sorted) moved small,
      )

  -- What is found in a written index after parsing is one of the objects it was written for, with its offset.
  pub find_offset-entries :
      (name pack_sha bytes sha : List ℕ) (entries : List ObjectEntry) (index : PackIndex)
      (offset len : ℕ)
      → create_idx_v2_data zlib hex sha1 crc entries pack_sha ≡ ok bytes
      → parse name bytes ≡ ok index
      → find_offset index sha ≡ some (offset, len)
      → All IsEntry entries
      → length entries < u32_mod
      → IsSha pack_sha
      → ((content : List ℕ) → IsSha (sha1 content))
      → (i : ℕ) × (e : ObjectEntry) × (get_elem? entries i ≡ some e)
        × (e.oid_bytes ≡ sha)
        × (e.pack_offset ≡ offset)
  find_offset-entries name pack_sha bytes sha entries index offset len h read found are few p
        digest =
      let es = sort_entries entries in
      let same : index ≡ index_of name es pack_sha =
        cc (read, parse-create_idx_v2_data name pack_sha bytes entries h are few p digest) in
      let (j, there, place, room) =
        find_offset_sound (index_of name es pack_sha) sha offset len
          (ap (λ x. find_offset x sha) (sym same) ∙ found) in
      let (e, stands, named) = names-get_elem? es j sha there in
      let (i, old) = sort_entries_old e entries j stands in
      (i, e, old, named, sym (place ∙ get_or-pack_offsets es j e stands))
