-- ===== src/Git/Pack/Named.antt =====
-- What unpacking answers on every input: it ends, and names each object by its hash.
use git_nfs.Prelude.{
  ℕ, zero, suc, ◌+◌, ◌-◌, ◌/◌, ◌^◌, ◌||◌, ◌≤◌, ◌≡◌, ◌≢◌, refl, Bool, true, false, not, Bool-cases,
  Option-cases, inl, inr, List, [], ◌∷◌, length, take, drop, All, some, Result, ok, err, ◌>>=◌,
  guard, arith, ltb, leb, ◌==◌, str_eq, eq_of_str_eq, subst,
}
use Prim.Native.Nat.{bit_and, bit_or}
use git_nfs.Bytes.{from_be32, capacity_limit}
use git_nfs.Text.{ascii}
use git_nfs.Git.Tree.{Hex}
use git_nfs.Git.Objects.{
  ObjectType, commit, tree, blob, tag, ofs_delta, ref_delta, from_u8, compute_git_sha1,
}
use git_nfs.Git.Delta.{DeltaError, has_bit, shl, varint_loop, apply_git_delta}
use git_nfs.Git.Delta.Termination.{apply_git_delta_ends}
use git_nfs.Git.Pack.{
  Zlib, GitRawObject, PendingDelta, PackError, too_short, bad_magic, unsupported_version, eof,
  negative_base, unresolved, capacity_overflow, stuck, bad_type, bad_delta, map_err, ObjectMap,
  Unpacked, insert_sha, lookup_sha, parse_header, distance_loop, parse_distance, resolve_item_with,
  find_base, inflate, add_base, read_ofs_delta, read_ref_delta, read_object, read_objects,
  resolve_round, resolve_deltas, nothing_unpacked, unpack_body, unpack_packfile,
}

-- An error of the source.
abbrev pub IsReal : PackError → Type 0
IsReal e = (e ≢ stuck) × (e ≢ bad_delta DeltaError.stuck)

-- What holds of a value; an error is one of the source.
abbrev Safe {ℓ} : {A : Type ℓ} → (A → Type 0) → Result PackError A → Type 0
Safe P (ok a) = P a
Safe P (err e) = IsReal e

Safe-bind {ℓ κ} :
    {A : Type ℓ} {B : Type κ} (P : A → Type 0) (Q : B → Type 0) (r : Result PackError A)
    (f : A → Result PackError B)
    → Safe P r
    → ((a : A) → P a → Safe Q (f a))
    → Safe Q (r >>= f)
Safe-bind P Q (ok a) f s next = next a s
Safe-bind P Q (err e) f s next = s

Safe-weaken {ℓ} :
    {A : Type ℓ} (P Q : A → Type 0) (r : Result PackError A)
    → ((a : A) → P a → Q a)
    → Safe P r
    → Safe Q r
Safe-weaken P Q (ok a) f s = f a s
Safe-weaken P Q (err e) f s = s

abbrev Any {ℓ} : {A : Type ℓ} → A → Type 0
Any a = Unit

Safe-guard :
    (t : Bool) (e : PackError) {B : Type 0} (Q : B → Type 0) (r : Result PackError B)
    → IsReal e
    → (t ≡ true → Safe Q r)
    → Safe Q (guard t e >>= λ u. r)
Safe-guard true e Q r real next = next refl
Safe-guard false e Q r real next = real

Safe-map_err :
    {A E : Type 0} (f : E → PackError) (r : Result E A)
    → ((e : E) → r ≡ err e → IsReal (f e))
    → Safe (Any {A = A}) (map_err f r)
Safe-map_err f (ok a) real = tt
Safe-map_err f (err e) real = real e refl

eof-IsReal : IsReal eof
eof-IsReal = (λ i. cc i, λ i. cc i)

parse_header-Safe : (bytes : List ℕ) → Safe (Any {A = ObjectType × ℕ × List ℕ}) (parse_header bytes)
unfolding parse_header
parse_header-Safe [] = eof-IsReal
parse_header-Safe (c ∷ bytes) =
    Safe-bind (Any {A = ObjectType}) (Any {A = ObjectType × ℕ × List ℕ}) _ _
      (Safe-map_err bad_type (from_u8 (bit_and (c / 2 ^ 4) 7)) (λ e h. (λ i. cc i, λ i. cc i)))
      (λ t h.
        Safe-bind (Any {A = ℕ × List ℕ}) (Any {A = ObjectType × ℕ × List ℕ}) _ _
          (Safe-map_err (λ e. eof) (varint_loop c (bit_and c 15) 4 bytes) (λ e h. eof-IsReal))
          (λ s k. tt))

distance_loop-Safe :
    (c distance : ℕ) (bytes : List ℕ) → Safe (Any {A = ℕ × List ℕ}) (distance_loop c distance bytes)
unfolding distance_loop
distance_loop-Safe c distance [] = elim (Bool-cases (has_bit 0x80 c)) [
  | inl e ↦ rw (distance_loop, e) eof-IsReal
  | inr e ↦ rw (distance_loop, e) tt
]
distance_loop-Safe c distance (d ∷ bytes) = elim (Bool-cases (has_bit 0x80 c)) [
  | inl e ↦
      rw (distance_loop, e)
        (distance_loop-Safe d (bit_or (shl (distance + 1) 7) (bit_and d 0x7f)) bytes)
  | inr e ↦ rw (distance_loop, e) tt
]

parse_distance-Safe : (bytes : List ℕ) → Safe (Any {A = ℕ × List ℕ}) (parse_distance bytes)
unfolding parse_distance
parse_distance-Safe [] = eof-IsReal
parse_distance-Safe (c ∷ bytes) = distance_loop-Safe c (bit_and c 0x7f) bytes

module _ (zlib : Zlib) (hex : Hex) (sha1 : List ℕ → List ℕ) where
  -- The name is the hash of the object.
  abbrev pub IsNamed : List ℕ × GitRawObject → Type 0
  IsNamed e = e.0 ≡ compute_git_sha1 hex sha1 e.1.obj_type e.1.content

  abbrev AllNamed : Unpacked → Type 0
  AllNamed u = All IsNamed u.objects_by_sha

  insert_sha-All :
      (P : List ℕ × GitRawObject → Type 0) (sha : List ℕ) (o : GitRawObject) (m : ObjectMap)
      → P (sha, o)
      → All P m
      → All P (insert_sha sha o m)
  unfolding insert_sha
  insert_sha-All P sha o [] p h = (p, tt)
  insert_sha-All P sha o (e ∷ m) p h = elim (Bool-cases (str_eq e.0 sha)) [
    | inl s ↦ rw (insert_sha, s) (p, h.1)
    | inr s ↦ rw (insert_sha, s) (h.0, insert_sha-All P sha o m p h.1)
  ]

  inflate-Safe : (bytes : List ℕ) → Safe (Any {A = List ℕ × List ℕ}) (inflate zlib hex sha1 bytes)
  unfolding inflate
  inflate-Safe bytes = elim (Option-cases (zlib.decompress bytes)) [
    | inl e ↦ rw (inflate, e) (λ i. cc i, λ i. cc i)
    | inr (r, e) ↦ rw (inflate, e) tt
  ]

  abbrev StoredNamed : (Unpacked × List PendingDelta) × List ℕ → Type 0
  StoredNamed r = AllNamed r.0.0

  read_ofs_delta-Safe :
      (offset : ℕ) (bytes : List ℕ)
      → Safe (Any {A = PendingDelta × List ℕ}) (read_ofs_delta zlib hex sha1 offset bytes)
  unfolding read_ofs_delta
  read_ofs_delta-Safe offset bytes =
      Safe-bind (Any {A = ℕ × List ℕ}) (Any {A = PendingDelta × List ℕ}) (parse_distance bytes) _
        (parse_distance-Safe bytes)
        (λ d h.
          Safe-guard (leb d.0 offset) negative_base (Any {A = PendingDelta × List ℕ}) _
            (λ i. cc i, λ i. cc i)
            (λ e.
              Safe-bind (Any {A = List ℕ × List ℕ}) (Any {A = PendingDelta × List ℕ})
                (inflate zlib hex sha1 d.1) _ (inflate-Safe d.1) (λ r k. tt)))

  read_ref_delta-Safe :
      (offset : ℕ) (bytes : List ℕ)
      → Safe (Any {A = PendingDelta × List ℕ}) (read_ref_delta zlib hex sha1 offset bytes)
  unfolding read_ref_delta
  read_ref_delta-Safe offset bytes =
      Safe-guard (leb 20 (length bytes)) eof (Any {A = PendingDelta × List ℕ}) _ eof-IsReal (λ e.
        Safe-bind (Any {A = List ℕ × List ℕ}) (Any {A = PendingDelta × List ℕ})
          (inflate zlib hex sha1 (drop 20 bytes)) _ (inflate-Safe (drop 20 bytes)) (λ r k. tt))

  stored-Safe :
      (offset : ℕ) (t : ObjectType) (size : ℕ) (bytes : List ℕ) (u : Unpacked)
      (pending : List PendingDelta)
      → AllNamed u
      → Safe StoredNamed (
          guard (ltb size capacity_limit) capacity_overflow >>= λ k.
          inflate zlib hex sha1 bytes >>= λ r.
          ok ((add_base zlib hex sha1 offset t r.0 u, pending), r.1))
  unfolding add_base
  stored-Safe offset t size bytes u pending named =
      Safe-guard (ltb size capacity_limit) capacity_overflow StoredNamed _ (λ i. cc i, λ i. cc i)
        (λ fits.
          Safe-bind (Any {A = List ℕ × List ℕ}) StoredNamed (inflate zlib hex sha1 bytes) _
            (inflate-Safe bytes) (λ r h. insert_sha-All IsNamed _ _ u.objects_by_sha refl named))

  read_object-Safe :
      (offset : ℕ) (t : ObjectType) (size : ℕ) (bytes : List ℕ) (u : Unpacked)
      (pending : List PendingDelta)
      → AllNamed u
      → Safe StoredNamed (read_object zlib hex sha1 offset t size bytes (u, pending))
  unfolding read_object
  read_object-Safe offset ofs_delta size bytes u pending named =
      Safe-bind (Any {A = PendingDelta × List ℕ}) StoredNamed
        (read_ofs_delta zlib hex sha1 offset bytes) _ (read_ofs_delta-Safe offset bytes)
        (λ r h. named)
  read_object-Safe offset ref_delta size bytes u pending named =
      Safe-bind (Any {A = PendingDelta × List ℕ}) StoredNamed
        (read_ref_delta zlib hex sha1 offset bytes) _ (read_ref_delta-Safe offset bytes)
        (λ r h. named)
  read_object-Safe offset commit size bytes u pending named =
      stored-Safe offset commit size bytes u pending named
  read_object-Safe offset tree size bytes u pending named =
      stored-Safe offset tree size bytes u pending named
  read_object-Safe offset blob size bytes u pending named =
      stored-Safe offset blob size bytes u pending named
  read_object-Safe offset tag size bytes u pending named =
      stored-Safe offset tag size bytes u pending named

  read_objects-Safe :
      (total n : ℕ) (bytes : List ℕ) (st : Unpacked × List PendingDelta)
      → AllNamed st.0
      → Safe
          (λ (r : Unpacked × List PendingDelta). AllNamed r.0)
          (read_objects zlib hex sha1 total n bytes st)
  unfolding read_objects
  read_objects-Safe total zero bytes st named = named
  read_objects-Safe total (suc n) bytes st named =
      let Q : Unpacked × List PendingDelta → Type 0 = λ r. AllNamed r.0 in
      Safe-bind (Any {A = ObjectType × ℕ × List ℕ}) Q (parse_header bytes) _
        (parse_header-Safe bytes)
        (λ o h.
          Safe-bind StoredNamed Q (read_object zlib hex sha1 (total - length bytes) o.0 o.1 o.2 st)
            _ (read_object-Safe (total - length bytes) o.0 o.1 o.2 st.0 st.1 named)
            (λ r k. read_objects-Safe total n r.1 r.0 k))

  resolve_item-Safe :
      (item : PendingDelta) (base : GitRawObject) (u : Unpacked)
      → AllNamed u
      → Safe AllNamed (resolve_item_with hex sha1 item base u)
  unfolding resolve_item_with
  resolve_item-Safe item base u named =
      Safe-bind (Any {A = List ℕ}) AllNamed
        (map_err bad_delta (apply_git_delta base.content item.delta_data)) _
        (Safe-map_err bad_delta (apply_git_delta base.content item.delta_data)
          (λ e h. (λ i. cc i, λ i. apply_git_delta_ends base.content item.delta_data (cc (h, i)))))
        (λ r h. insert_sha-All IsNamed _ _ u.objects_by_sha refl named)

  -- A round puts off no more deltas than it is given.
  abbrev RoundOf : List PendingDelta → Unpacked × List PendingDelta → Type 0
  RoundOf items r = AllNamed r.0 × (length r.1 ≤ length items)

  resolve_round-Safe :
      (items : List PendingDelta) (u : Unpacked)
      → AllNamed u
      → Safe (RoundOf items) (resolve_round zlib hex sha1 items u)
  unfolding resolve_round
  resolve_round-Safe [] u named = (named, omega arith)
  resolve_round-Safe (item ∷ items) u named = elim (Option-cases (find_base item u)) [
    | inl e ↦
        rw (resolve_round, e)
          (Safe-bind (RoundOf items) (RoundOf (item ∷ items)) (resolve_round zlib hex sha1 items u)
            _ (resolve_round-Safe items u named) (λ r h. (h.0, omega arith)))
    | inr (base, e) ↦
        rw (resolve_round, e)
          (Safe-bind AllNamed (RoundOf (item ∷ items)) (resolve_item_with hex sha1 item base u) _
            (resolve_item-Safe item base u named)
            (λ u' n.
              Safe-weaken (RoundOf items) (RoundOf (item ∷ items))
                (resolve_round zlib hex sha1 items u') (λ r h. (h.0, omega arith))
                (resolve_round-Safe items u' n)))
  ]

  -- Every round but the last resolves a delta, so that a round for each is enough.
  resolve_deltas-Safe :
      (fuel : ℕ) (items : List PendingDelta) (u : Unpacked)
      → length items ≤ fuel
      → AllNamed u
      → Safe (All IsNamed) (resolve_deltas zlib hex sha1 fuel items u)
  unfolding resolve_deltas
  resolve_deltas-Safe zero [] u h named = named
  resolve_deltas-Safe (suc fuel) [] u h named = named
  resolve_deltas-Safe zero (item ∷ items) u h named = absurd (omega arith)
  resolve_deltas-Safe (suc fuel) (item ∷ items) u h named =
      Safe-bind (RoundOf (item ∷ items)) (All IsNamed)
        (resolve_round zlib hex sha1 (item ∷ items) u) _ (resolve_round-Safe (item ∷ items) u named)
        (λ r k.
          Safe-guard (not (length r.1 == length (item ∷ items))) unresolved (All IsNamed) _
            (λ i. cc i, λ i. cc i) (λ e. resolve_deltas-Safe fuel r.1 r.0 (ground arith) k.0))

  unpack_body-Safe :
      (total : ℕ) (bytes : List ℕ) → Safe (All IsNamed) (unpack_body zlib hex sha1 total bytes)
  unfolding unpack_body
  unpack_body-Safe total (v3 ∷ v2 ∷ v1 ∷ v0 ∷ n3 ∷ n2 ∷ n1 ∷ n0 ∷ bytes) =
      let version = from_be32 v3 v2 v1 v0 in
      Safe-guard (version == 2 || version == 3) unsupported_version (All IsNamed) _
        (λ i. cc i, λ i. cc i)
        (λ e.
          Safe-bind (λ (r : Unpacked × List PendingDelta). AllNamed r.0) (All IsNamed)
            (read_objects zlib hex sha1 total (from_be32 n3 n2 n1 n0) bytes (nothing_unpacked, []))
            _ (read_objects-Safe total (from_be32 n3 n2 n1 n0) bytes (nothing_unpacked, []) tt)
            (λ r h. resolve_deltas-Safe (length r.1) r.1 r.0 (omega arith) h))
  unpack_body-Safe total [] = (λ i. cc i, λ i. cc i)
  unpack_body-Safe total (a ∷ []) = (λ i. cc i, λ i. cc i)
  unpack_body-Safe total (a ∷ b ∷ []) = (λ i. cc i, λ i. cc i)
  unpack_body-Safe total (a ∷ b ∷ c ∷ []) = (λ i. cc i, λ i. cc i)
  unpack_body-Safe total (a ∷ b ∷ c ∷ d ∷ []) = (λ i. cc i, λ i. cc i)
  unpack_body-Safe total (a ∷ b ∷ c ∷ d ∷ e ∷ []) = (λ i. cc i, λ i. cc i)
  unpack_body-Safe total (a ∷ b ∷ c ∷ d ∷ e ∷ f ∷ []) = (λ i. cc i, λ i. cc i)
  unpack_body-Safe total (a ∷ b ∷ c ∷ d ∷ e ∷ f ∷ g ∷ []) = (λ i. cc i, λ i. cc i)

  unpack_packfile-Safe : (pack : List ℕ) → Safe (All IsNamed) (unpack_packfile zlib hex sha1 pack)
  unfolding unpack_packfile
  unpack_packfile-Safe pack =
      Safe-guard (leb 12 (length pack)) too_short (All IsNamed) _ (λ i. cc i, λ i. cc i)
        (λ e.
          Safe-guard (str_eq (take 4 pack) (ascii "PACK")) bad_magic (All IsNamed) _
            (λ i. cc i, λ i. cc i) (λ f. unpack_body-Safe (length pack) (drop 4 pack)))

  lookup_sha-All :
      (P : List ℕ × GitRawObject → Type 0) (sha : List ℕ) (o : GitRawObject) (m : ObjectMap)
      → All P m
      → lookup_sha sha m ≡ some o
      → P (sha, o)
  unfolding lookup_sha
  lookup_sha-All P sha o [] h found = absurd (cc found)
  lookup_sha-All P sha o ((s, p) ∷ m) h found = elim (Bool-cases (str_eq s sha)) [
    | inl e ↦
        let same : o ≡ p = cc (rw (lookup_sha, e) at found) in
        subst (λ t. P (t, o)) (eq_of_str_eq s sha e) (rw same h.0)
    | inr e ↦ lookup_sha-All P sha o m h.1 (rw (lookup_sha, e) at found)
  ]

  -- Whatever bytes come as a pack, an object found under a name after unpacking, stored whole or resolved from
  -- deltas, has that name as the hash of its type and content.
  pub lookup_sha-unpack_packfile :
      (pack name : List ℕ) (objects : ObjectMap) (o : GitRawObject)
      → unpack_packfile zlib hex sha1 pack ≡ ok objects
      → lookup_sha name objects ≡ some o
      → name ≡ compute_git_sha1 hex sha1 o.obj_type o.content
  lookup_sha-unpack_packfile pack name objects o unpacked found =
      lookup_sha-All IsNamed name o objects
        (subst (Safe (All IsNamed)) unpacked (unpack_packfile-Safe pack)) found

  -- Whatever bytes come as a pack, unpacking ends: with the objects, with an error of the source, or with the
  -- panic on a size of 2 ^ 63 bytes or more, never for want of fuel, neither in the rounds over the deltas nor in
  -- a delta.
  pub unpack_packfile_ends :
      (pack : List ℕ)
      → (unpack_packfile zlib hex sha1 pack ≢ err stuck)
        × (unpack_packfile zlib hex sha1 pack ≢ err (bad_delta DeltaError.stuck))
  unpack_packfile_ends pack = (
    λ e. (subst (Safe (All IsNamed)) e (unpack_packfile-Safe pack)).0 refl,
    λ e. (subst (Safe (All IsNamed)) e (unpack_packfile-Safe pack)).1 refl,
  )
