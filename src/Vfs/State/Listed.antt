-- ===== src/Vfs/State/Listed.antt =====
-- src/vfs/inode.rs: the lists of children, and what the updates of the tables keep of them.
use git_nfs.Prelude.{
  ℕ, ◌+◌, ◌<◌, ◌≡◌, ◌≢◌, ◌⊎◌, sym, ◌∙◌, subst, false, none, some, List, [], ◌∷◌, ◌++◌, ◌==◌, str_eq,
  str_eq_iff, arith, Bool-cases, inl, inr, ◌&&◌, if◌then◌else◌,
}
use git_nfs.Bytes.{u64_mod}
use git_nfs.Vfs.State.{VfsNode, VfsManager, set_node, attach, detach, drop_child, without}
use git_nfs.Vfs.State.Laws.{IsValid, same_key, mapped_once}

abbrev pub In : ℕ → List ℕ → Type 0
In id [] = ⊥
In id (x ∷ ids) = (x ≡ id) ⊎ In id ids

-- A node that is not deleted, under its directory.
abbrev pub Child : VfsManager → ℕ → ℕ → Type 0
Child v dir id =
    (node : VfsNode) × (v.nodes id ≡ some node) × (node.parent_id ≡ dir) × (node.is_deleted ≡ false)

-- A list of children holds nodes of its own directory that are not deleted, and every mapped child stands in
-- the list of its directory.
pub record IsListed (v : VfsManager) : Type 0 where
  pub listed :
      (dir : ℕ) (ids : List ℕ) (id : ℕ) → v.dir_children dir ≡ some ids → In id ids → Child v dir id
  pub mapped_listed :
      (dir : ℕ) (name : List ℕ) (id : ℕ)
      → v.child_map dir name ≡ some id
      → (ids : List ℕ) × (v.dir_children dir ≡ some ids) × In id ids
  pub dir_below : (dir : ℕ) (ids : List ℕ) → v.dir_children dir ≡ some ids → dir < v.next_inode

In-push : (ids : List ℕ) (x id : ℕ) → In id (ids ++ x ∷ []) → In id ids ⊎ (x ≡ id)
In-push [] x id (inl e) = inr e
In-push [] x id (inr i) = absurd i
In-push (y ∷ ids) x id (inl e) = inl (inl e)
In-push (y ∷ ids) x id (inr i) = elim (In-push ids x id i) [ inl j ↦ inl (inr j) | inr e ↦ inr e ]

push-In : (ids : List ℕ) (x id : ℕ) → In id ids ⊎ (x ≡ id) → In id (ids ++ x ∷ [])
push-In [] x id (inr e) = inl e
push-In [] x id (inl i) = absurd i
push-In (y ∷ ids) x id (inl (inl e)) = inl e
push-In (y ∷ ids) x id (inl (inr i)) = inr (push-In ids x id (inl i))
push-In (y ∷ ids) x id (inr e) = inr (push-In ids x id (inr e))

pub In-without : (ids : List ℕ) (x id : ℕ) → In id (without x ids) → In id ids × (id ≢ x)
unfolding without
In-without [] x id i = absurd i
In-without (y ∷ ids) x id i = elim (Bool-cases (y == x)) [
  | inl e ↦ let (j, n) = In-without ids x id (rw (without, e) at i) in (inr j, n)
  | inr e ↦ elim (first (rw (without, e) at i)) [
    | inl same ↦ (inl same, λ f. absurd (ground arith))
    | inr j ↦ let (k, n) = In-without ids x id j in (inr k, n)
  ]
]
  where
    first : (y ≡ id) ⊎ In id (without x ids) → (y ≡ id) ⊎ In id (without x ids)
    first i = i

pub without-In : (ids : List ℕ) (x id : ℕ) → In id ids → id ≢ x → In id (without x ids)
unfolding without
without-In [] x id i n = absurd i
without-In (y ∷ ids) x id i n = elim (Bool-cases (y == x)) [
  | inl e ↦ elim i [
    | inl same ↦ absurd (n (ground arith))
    | inr j ↦ rw (without, e) (without-In ids x id j n)
  ]
  | inr e ↦ elim i [
    | inl same ↦ rw (without, e) (inl same)
    | inr j ↦ rw (without, e) (inr (without-In ids x id j n))
  ]
]

-- A node that keeps its directory and does not become deleted.
pub update-IsListed :
    (v : VfsManager) (id : ℕ) (node node' : VfsNode)
    → IsListed v
    → v.nodes id ≡ some node
    → node'.parent_id ≡ node.parent_id
    → (node.is_deleted ≡ false → node'.is_deleted ≡ false)
    → IsListed (set_node id node' v)
update-IsListed v id node node' l has same alive = record {
  listed = λ dir ids j h i.
      let (x, old, p, live) = l.listed dir ids j h i in
      elim (Bool-cases (id == j)) [
        | inl e ↦
            let eq : x ≡ node = ground arith in
            (node', ground arith, ground arith, alive (subst (λ y. y.is_deleted ≡ false) eq live))
        | inr e ↦ (x, ground arith, p, live)
      ];
  mapped_listed = l.mapped_listed;
  dir_below = l.dir_below;
}

-- A new node under a directory that has a list.
pub attach-IsListed :
    (v : VfsManager) (node : VfsNode) (ids : List ℕ)
    → IsValid v
    → IsListed v
    → node.id ≡ v.next_inode
    → node.is_deleted ≡ false
    → v.dir_children node.parent_id ≡ some ids
    → v.next_inode + 1 < u64_mod
    → IsListed (attach node.parent_id node.name node v)
unfolding attach
attach-IsListed v node ids valid l fresh live has room = record {
  dir_below = λ dir js h. elim (Bool-cases (node.parent_id == dir)) [
    | inl e ↦ ground (arith, l.dir_below node.parent_id ids has)
    | inr e ↦
        let old : v.dir_children dir ≡ some js = ground arith in
        ground (arith, l.dir_below dir js old)
  ];
  listed = λ dir js j h i. elim (Bool-cases (node.parent_id == dir)) [
    | inl e ↦
        let list : js ≡ ids ++ node.id ∷ [] = ground arith in
        elim (In-push ids node.id j (subst (In j) list i)) [
          | inl k ↦
              let (x, old, p, a) = l.listed node.parent_id ids j has k in
              let (lt, same) = valid.below j x old in (x, ground arith, ground arith, a)
          | inr k ↦ (node, ground arith, ground arith, live)
        ]
    | inr e ↦
        let (x, old, p, a) = l.listed dir js j (ground arith) i in
        let (lt, same) = valid.below j x old in (x, ground arith, p, a)
  ];
  mapped_listed = λ dir name j h.
      elim (Bool-cases (node.parent_id == dir && str_eq node.name name)) [
        | inl e ↦ (ids ++ node.id ∷ [], ground arith, push-In ids node.id j (inr (ground arith)))
        | inr e ↦
            let (js, list, k) = l.mapped_listed dir name j (ground arith) in
            elim (Bool-cases (node.parent_id == dir)) [
              | inl f ↦
                  let same : js ≡ ids = ground arith in
                  (
                    ids ++ node.id ∷ [],
                    ground arith,
                    push-In ids node.id j (inl (subst (In j) same k)),
                  )
              | inr f ↦ (js, ground arith, k)
            ]
      ];
}

module _ (v : VfsManager) (valid : IsValid v) (l : IsListed v) where
  -- A mapped child is a node of its directory that is not deleted.
  pub mapped-Child :
      (dir : ℕ) (name : List ℕ) (id : ℕ) → v.child_map dir name ≡ some id → Child v dir id
  mapped-Child dir name id h =
      let (ids, list, i) = l.mapped_listed dir name id h in l.listed dir ids id list i

  -- Another mapping is one of another node.
  pub other_id :
      (d e : ℕ) (s t : List ℕ) (id j : ℕ)
      → v.child_map d s ≡ some id
      → v.child_map e t ≡ some j
      → (d == e && str_eq s t) ≡ false
      → j ≢ id
  other_id d e s t id j h k apart same =
      let (p, q) =
        mapped_once v d e s t id valid h (subst (λ i. v.child_map e t ≡ some i) same k) in
      absurd (ground (arith, str_eq_iff s t))

  -- The entry that goes is deleted, and leaves its list.
  pub detach-IsListed :
      (dir : ℕ) (name : List ℕ) (id : ℕ) (node : VfsNode) (ids : List ℕ)
      → v.child_map dir name ≡ some id
      → v.nodes id ≡ some node
      → v.dir_children dir ≡ some ids
      → IsListed (detach dir name id node v)
  unfolding detach
  detach-IsListed dir name id node ids found has list =
      let (y, has_y, parent, live) = mapped-Child dir name id found in
      rw (detach, list, drop_child)
        (record {
          dir_below = λ d js h. elim (Bool-cases (dir == d)) [
            | inl e ↦ ground (arith, l.dir_below dir ids list)
            | inr e ↦ l.dir_below d js (ground arith)
          ];
          listed = λ d js j h i. elim (Bool-cases (dir == d)) [
            | inl e ↦
                let same : js ≡ without id ids = ground arith in
                let (k, n) = In-without ids id j (subst (In j) same i) in
                let (x, old, p, a) = l.listed dir ids j list k in (x, ground arith, ground arith, a)
            | inr e ↦
                let (x, old, p, a) = l.listed d js j (ground arith) i in
                elim (Bool-cases (id == j)) [
                  | inl f ↦ absurd (ground arith)
                  | inr f ↦ (x, ground arith, p, a)
                ]
          ];
          mapped_listed = λ d n j h. elim (Bool-cases (dir == d && str_eq name n)) [
            | inl e ↦ absurd (ground arith)
            | inr e ↦
                let old : v.child_map d n ≡ some j = ground arith in
                let (js, there, k) = l.mapped_listed d n j old in
                elim (Bool-cases (dir == d)) [
                  | inl f ↦
                      let same : js ≡ ids = ground arith in
                      (
                        without id ids,
                        ground arith,
                        without-In ids id j (subst (In j) same k)
                            (other_id dir d name n id j found old e),
                      )
                  | inr f ↦ (js, ground arith, k)
                ]
          ];
        })

  module _ (id : ℕ) (from_dir : ℕ) (from_name : List ℕ) (to_dir : ℕ) (to_name : List ℕ)
      (node moved : VfsNode) (ids_from ids_to rest : List ℕ) (w : VfsManager)
      (found : v.child_map from_dir from_name ≡ some id) (has : v.nodes id ≡ some node)
      (place : moved.parent_id ≡ to_dir) (alive : moved.is_deleted ≡ false)
      (list_from : v.dir_children from_dir ≡ some ids_from)
      (list_to : v.dir_children to_dir ≡ some ids_to)
      (nodes_eq : (j : ℕ) → w.nodes j ≡ (if id == j then some moved else v.nodes j))
      (map_eq : (d : ℕ) (n : List ℕ)
        → w.child_map d n ≡ (
            if to_dir == d && str_eq to_name n
            then some id
            else if from_dir == d && str_eq from_name n
            then none
            else v.child_map d n))
      (new_to : w.dir_children to_dir ≡ some (rest ++ id ∷ []))
      (rest_In : (j : ℕ) → In j rest → In j ids_to × (j ≢ id))
      (In_rest : (j : ℕ) → In j ids_to → j ≢ id → In j rest)
      (new_from : (from_dir == to_dir) ≡ false
        → w.dir_children from_dir ≡ some (without id ids_from))
      (next_eq : w.next_inode ≡ v.next_inode)
      (new_other : (d : ℕ)
        → (to_dir == d) ≡ false
        → (from_dir == d) ≡ false
        → w.dir_children d ≡ v.dir_children d) where
    -- A child that moves leaves its list, and comes into the other.
    pub moved-IsListed : IsListed w
    moved-IsListed =
        let (y, has_y, parent, live) = mapped-Child from_dir from_name id found in
        record {
          dir_below = λ d js h. elim (Bool-cases (to_dir == d)) [
            | inl e ↦ ground (arith, l.dir_below to_dir ids_to list_to, next_eq)
            | inr e ↦ elim (Bool-cases (from_dir == d)) [
              | inl f ↦ ground (arith, l.dir_below from_dir ids_from list_from, next_eq)
              | inr f ↦ omega (arith, l.dir_below d js (sym (new_other d e f) ∙ h), next_eq)
            ]
          ];
          listed = λ d js j h i. elim (Bool-cases (to_dir == d)) [
            | inl e ↦
                let there : w.dir_children d ≡ some (rest ++ id ∷ []) =
                  subst (λ k. w.dir_children k ≡ some (rest ++ id ∷ []))
                    (let q : to_dir ≡ d = ground arith in q) new_to in
                let same : js ≡ rest ++ id ∷ [] = cc in
                elim (In-push rest id j (subst (In j) same i)) [
                  | inl k ↦
                      let (m, n) = rest_In j k in
                      let (x, old, p, a) = l.listed to_dir ids_to j list_to m in
                      (x, ground (arith, nodes_eq j), ground arith, a)
                  | inr k ↦ (moved, ground (arith, nodes_eq j), ground arith, alive)
                ]
            | inr e ↦ elim (Bool-cases (from_dir == d)) [
              | inl f ↦
                  let apart : (from_dir == to_dir) ≡ false = ground arith in
                  let there : w.dir_children d ≡ some (without id ids_from) =
                    subst (λ k. w.dir_children k ≡ some (without id ids_from))
                      (let q : from_dir ≡ d = ground arith in q) (new_from apart) in
                  let same : js ≡ without id ids_from = cc in
                  let (m, n) = In-without ids_from id j (subst (In j) same i) in
                  let (x, old, p, a) = l.listed from_dir ids_from j list_from m in
                  (x, ground (arith, nodes_eq j), ground arith, a)
              | inr f ↦
                  let there : v.dir_children d ≡ some js = sym (new_other d e f) ∙ h in
                  let (x, old, p, a) = l.listed d js j there i in
                  elim (Bool-cases (id == j)) [
                    | inl g ↦ absurd (ground arith)
                    | inr g ↦ (x, ground (arith, nodes_eq j), p, a)
                  ]
            ]
          ];
          mapped_listed = λ d n j h. elim (Bool-cases (to_dir == d && str_eq to_name n)) [
            | inl e ↦
                let (p, q) = same_key to_dir d to_name n e in
                (
                  rest ++ id ∷ [],
                  subst (λ k. w.dir_children k ≡ some (rest ++ id ∷ [])) p new_to,
                  push-In rest id j (inr (ground (arith, map_eq d n))),
                )
            | inr e ↦ elim (Bool-cases (from_dir == d && str_eq from_name n)) [
              | inl f ↦ absurd (ground (arith, map_eq d n))
              | inr f ↦
                  let old : v.child_map d n ≡ some j = ground (arith, map_eq d n) in
                  let (js, there, k) = l.mapped_listed d n j old in
                  let apart : j ≢ id = other_id from_dir d from_name n id j found old f in
                  elim (Bool-cases (to_dir == d)) [
                    | inl g ↦
                        let p : to_dir ≡ d = ground arith in
                        let same : js ≡ ids_to = ground arith in
                        (
                          rest ++ id ∷ [],
                          subst (λ k. w.dir_children k ≡ some (rest ++ id ∷ [])) p new_to,
                          push-In rest id j (inl (In_rest j (subst (In j) same k) apart)),
                        )
                    | inr g ↦ elim (Bool-cases (from_dir == d)) [
                      | inl m ↦
                          let p : from_dir ≡ d = ground arith in
                          let same : js ≡ ids_from = ground arith in
                          (
                            without id ids_from,
                            subst (λ k. w.dir_children k ≡ some (without id ids_from)) p
                                (new_from (ground arith)),
                            without-In ids_from id j (subst (In j) same k) apart,
                          )
                      | inr m ↦ (js, new_other d g m ∙ there, k)
                    ]
                  ]
            ]
          ];
        }
