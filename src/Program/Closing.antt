-- ===== src/Program/Closing.antt =====
-- What the program leaves behind.
use tsheadroom.Prelude.{
  subst, sym, inl, inr, ◌⊎◌, codes, ℕ, bytes_eq, Bool, true, false, List, [], ◌∷◌, Option, none,
  some, ◌≡◌, refl, Bool-cases, Option-cases,
}
use tsheadroom.Program.{
  tsnet_node, mode_name, listen_addr, Flags, Surroundings, Resource, pool_slots, node, listener,
  Act, takes, frees, serves, drains_requests, Listening, on_local, on_node, listening, listen,
  after_listen, with_pool, run_main,
}

-- What is held after some steps, the last one taken first; `none` once something is given back that
-- is not the last one taken.
unfoldable pub held : List Act → List Resource → Option (List Resource)
held [] rs = some rs
held (takes r ∷ rest) rs = held rest (r ∷ rs)
held (frees pool_slots ∷ rest) (pool_slots ∷ rs) = held rest rs
held (frees node ∷ rest) (node ∷ rs) = held rest rs
held (frees listener ∷ rest) (listener ∷ rs) = held rest rs
held (frees r ∷ rest) rs = none
held (serves ∷ rest) rs = held rest rs
held (drains_requests ∷ rest) rs = held rest rs

-- How the program ends, with what it holds: nothing, unless it could not listen.
abbrev pub IsEnd : Flags → Surroundings → List Act × ℕ → Type 0
IsEnd f e r =
    ((r.1 ≡ 0) × (held r.0 [] ≡ some []) × (e.listens ≡ true))
    ⊎ ((r.1 ≡ 1) × (r.0 ≡ []) × ((e.absolute f.script ≡ none) ⊎ (e.absolute f.config ≡ none)))
    ⊎ ((r.1 ≡ 1) × (held r.0 [] ≡ some (pool_slots ∷ [])) × (e.listens ≡ false))

-- The part of `main` after the pool is made.
listened :
    (f : Flags) (e : Surroundings) (l : Listening) (ok : Bool)
    → e.listens ≡ ok
    → IsEnd f e (with_pool (after_listen (listen l ok)))
unfolding with_pool after_listen listen held
listened f e (on_local addr) true h = inl (refl, refl, h)
listened f e (on_local addr) false h = inr (inr (refl, refl, h))
listened f e (on_node n addr) true h = inl (refl, refl, h)
listened f e (on_node n addr) false h = inr (inr (refl, refl, h))

-- The program ends in one of three ways. It exits with 0 after a signal, having given back its
-- listener, its tailnet node and its pool, the last one taken first. It exits with 1 before it takes
-- anything, if a path has no absolute form. Or it exits with 1 because it cannot listen, and then the
-- pool of workers, which it has started, is not shut down; the node that it had made is closed.
pub run_main-IsEnd : (f : Flags) (e : Surroundings) → IsEnd f e (run_main f e)
unfolding run_main
run_main-IsEnd f e = elim (Option-cases (e.absolute f.script)) [
  | inl a ↦ rw (a, run_main) (inr (inl (refl, refl, inl refl)))
  | inr (s, a) ↦ elim (Option-cases (e.absolute f.config)) [
    | inl b ↦ rw (a, b, run_main) (inr (inl (refl, refl, inr refl)))
    | inr (c, b) ↦
        let went : run_main f e ≡ with_pool (after_listen (listen (listening f e) e.listens)) =
          rw (a, b, run_main) refl in
        subst (IsEnd f e) (sym went) (listened f e (listening f e) e.listens refl)
  ]
]

-- What the log line of the start says, against a way to listen.
abbrev pub IsLogged : Flags → Listening → Type 0
IsLogged f (on_local a) =
    (mode_name f.local_addr ≡ codes "local") × (listen_addr f.local_addr f.addr ≡ a)
IsLogged f (on_node n a) =
    (mode_name f.local_addr ≡ codes "tsnet")
    × (listen_addr f.local_addr f.addr ≡ a)
    × (n.hostname ≡ f.hostname)

-- The mode and the address in the log line of the start are those on which `listen` listens, and on
-- the tailnet the host name too.
pub listening-IsLogged : (f : Flags) (e : Surroundings) → IsLogged f (listening f e)
unfolding listening mode_name listen_addr tsnet_node
listening-IsLogged f e = elim (Bool-cases (bytes_eq f.local_addr [])) [
  | inl a ↦ rw a (rw a refl, rw a refl, refl)
  | inr a ↦ rw a (rw a refl, rw a refl)
]
