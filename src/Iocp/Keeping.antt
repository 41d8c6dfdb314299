-- ===== src/Iocp/Keeping.antt =====
-- Steps of IOCPServer/IocpModel.h and IocpModel.cpp that keep a socket in every I/O context and post no
-- accept.
use boring.Prelude.{
  ℕ, ◌≡◌, refl, ◌∙◌, inl, inr, Bool, true, false, ◌||◌, Option, none, some, ◌==◌, Bool-cases,
  Option-cases,
}
use boring.Outcome.{After, After-bind, After-any}
use boring.Iocp.{
  IoContext, Windows, Server, PostResult, at_once, pending, refused, update, deref, put_io,
}
use boring.Iocp.Contexts.{get_new_io_context, remove_context, delete_io, close_socket, contains}
use boring.Iocp.Posting.{posting_result, post_accept}

abbrev pub has_socket : Option IoContext → Bool
has_socket none = true
has_socket (some c) = elim c.sock_accept [ none ↦ false | some k ↦ true ]

-- Every live I/O context has a socket.
abbrev pub Armed : Server → Type 0
Armed s = (a : ℕ) → has_socket (s.io_contexts a) ≡ true

-- The state after a step: still armed, and no accept has been posted.
pub record Kept (s s' : Server) : Type 0 where
  pub armed : Armed s'
  pub same : s'.accepts ≡ s.accepts

pub Kept-trans : (s s' s'' : Server) → Kept s s' → Kept s' s'' → Kept s s''
Kept-trans s s' s'' k l = record { armed = l.armed; same = l.same ∙ k.same }

pub deref-socket :
    (s : Server) (a : ℕ) → Armed s → After (λ c. has_socket (some c) ≡ true) (deref s.io_contexts a)
unfolding deref
deref-socket s a h = elim (Bool-cases (a == 0)) [
  | inl e ↦ rw (e, After) tt
  | inr n ↦ elim (Option-cases (s.io_contexts a)) [
    | inl e ↦ rw (n, e, After) tt
    | inr (c, e) ↦ rw (n, e, After) (rw e at (h a))
  ]
]

pub Armed-put_io :
    (s : Server) (a : ℕ) (c : IoContext)
    → has_socket (some c) ≡ true
    → Armed s
    → Armed (put_io a c s)
Armed-put_io s a c h k x = elim (Bool-cases (x == a)) [ inl e ↦ rw e h | inr n ↦ rw n (k x) ]

Armed-remove :
    (s : Server) (a : ℕ) → Armed s → Armed (record s { io_contexts = update s.io_contexts a none })
Armed-remove s a k x = elim (Bool-cases (x == a)) [ inl e ↦ rw e refl | inr n ↦ rw n (k x) ]

module _ (w : Windows) where
  -- An accept is posted only for a context that has no socket.
  pub post_accept-Kept :
      (io : ℕ) (s : Server) → Armed s → After (λ r. Kept s r.0) (post_accept w io s)
  unfolding post_accept
  post_accept-Kept io s h =
      After-bind (λ c. has_socket (some c) ≡ true) _ (deref s.io_contexts io) _
        (deref-socket s io h)
        λ c e. elim (Option-cases c.sock_accept) [
          | inl n ↦ cc
          | inr (k, n) ↦ rw (n, After) (record { armed = h; same = refl })
        ]

-- The same but for the context at `a`, which is still being filled in.
pub record KeptBut (s : Server) (a : ℕ) (s' : Server) : Type 0 where
  pub armed : (x : ℕ) → (x == a || has_socket (s'.io_contexts x)) ≡ true
  pub same : s'.accepts ≡ s.accepts

pub get_new-KeptBut :
    (ctx : ℕ) (s : Server) → Armed s → After (λ r. KeptBut s r.1 r.0) (get_new_io_context ctx s)
unfolding get_new_io_context
get_new-KeptBut ctx s h = After-any _ (deref s.socket_contexts ctx) _ λ c. record {
  armed = λ x. elim (Bool-cases (x == s.next)) [ inl e ↦ rw e refl | inr n ↦ rw n (h x) ];
  same = refl;
}

pub put_io-Kept :
    (s s' : Server) (a : ℕ) (c : IoContext)
    → has_socket (some c) ≡ true
    → KeptBut s a s'
    → Kept s (put_io a c s')
put_io-Kept s s' a c h k = record {
  armed = λ x. elim (Bool-cases (x == a)) [ inl e ↦ rw e h | inr n ↦ rw n (rw n at (k.armed x)) ];
  same = k.same;
}

close_socket_same :
    (k : Option ℕ) (s : Server)
    → ((close_socket k s).io_contexts ≡ s.io_contexts) × ((close_socket k s).accepts ≡ s.accepts)
close_socket_same none s = (refl, refl)
close_socket_same (some k) s = (refl, refl)

delete_io-Kept : (a : ℕ) (s : Server) → Armed s → After (Kept s) (delete_io a s)
unfolding delete_io
delete_io-Kept a s h = After-any _ (deref s.io_contexts a) _ λ c.
    let s' = record s { io_contexts = update s.io_contexts a none } in
    record {
      armed = λ x. rw (close_socket_same c.sock_accept s').0 (Armed-remove s a h x);
      same = (close_socket_same c.sock_accept s').1;
    }

pub remove_context-Kept :
    (ctx io : ℕ) (s : Server) → Armed s → After (Kept s) (remove_context ctx io s)
unfolding remove_context
remove_context-Kept ctx io s h = elim (Bool-cases (io == 0)) [
  | inl e ↦ rw (e, After) (record { armed = h; same = refl })
  | inr n ↦
      rw (n, After)
        (After-any _ (deref s.socket_contexts ctx) _ λ c.
          elim (Bool-cases (contains io c.io_contexts)) [
            | inl e ↦
                rw (e, After)
                  (After-bind (Kept s) _ (delete_io io s) _ (delete_io-Kept io s h)
                    λ s' k. record { armed = k.armed; same = k.same })
            | inr e ↦ rw (e, After) (record { armed = h; same = refl })
          ])
]

pub result-Kept :
    (s : Server) (r : PostResult) (posted s' : Server)
    → Kept s posted
    → Kept s s'
    → Kept s (posting_result r posted s').0
result-Kept s at_once posted s' p q = p
result-Kept s pending posted s' p q = p
result-Kept s refused posted s' p q = q
