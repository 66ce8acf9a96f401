-- ===== src/Aps/DataService/Remove.antt =====
-- What `TxHandle::remove` does to the list, and to the other handles.
use mathlib.Core.List.{Permᴰ}
use mathlib.Core.List.Permᴰ.{cons, swap, trans}
use mathlib.Core.List.Permᴰ
use kappaio.Common.{
  ℕ, ◌≡◌, refl, sym, ◌∙◌, false, List, [], ◌∷◌, map, none, some, ◌==◌, Bool-cases, inl, inr,
}
use kappaio.Common.Words.{All}
use kappaio.Aps.DataService.{
  Receiver, Node, Buffer, receiver_at, put_receiver, remove_handler, remove_with,
}

module _ {M : Type 0} where
  -- The receivers of a list, without their addresses.
  abbrev pub receivers : Buffer M → List (Receiver M)
  receivers ns = map (λ n. n.receiver) ns

  -- No node of the list is at the address.
  abbrev pub Fresh : ℕ → Buffer M → Type 0
  Fresh a ns = All (λ n. (n.address == a) ≡ false) ns

  some_clash : (r : Receiver M) → none ≡ some r → ⊥
  some_clash r e = cc

  some_inj : (r r' : Receiver M) → some r ≡ some r' → r ≡ r'
  some_inj r r' e = cc

  put_receiver-Perm :
      (h : ℕ) (ns : Buffer M) (r old : Receiver M)
      → receiver_at h ns ≡ some old
      → Permᴰ (r ∷ receivers ns) (old ∷ receivers (put_receiver h r ns))
  unfolding receiver_at put_receiver
  put_receiver-Perm h [] r old e = absurd (some_clash old e)
  put_receiver-Perm h (n ∷ ns) r old e = elim (Bool-cases (n.address == h)) [
    | inl this ↦ rw (this) (swap refl (some_inj n.receiver old (sym (rw (this)) ∙ e)))
    | inr other ↦ rw (other) (
        trans (swap refl refl) (
          trans (cons refl (put_receiver-Perm h ns r old (sym (rw (other)) ∙ e))) (swap refl refl)))
  ]

  receiver_at-Fresh : (a : ℕ) (ns : Buffer M) → Fresh a ns → receiver_at a ns ≡ none
  unfolding receiver_at
  receiver_at-Fresh a [] f = refl
  receiver_at-Fresh a (n ∷ ns) f = rw (f.0) (receiver_at-Fresh a ns f.1)

  put_receiver-Fresh :
      (a h : ℕ) (r : Receiver M) (ns : Buffer M) → Fresh a ns → Fresh a (put_receiver h r ns)
  unfolding put_receiver
  put_receiver-Fresh a h r [] f = tt
  put_receiver-Fresh a h r (n ∷ ns) f = elim (Bool-cases (n.address == h)) [
    | inl this ↦ rw (this) f
    | inr other ↦ rw (other) (f.0, put_receiver-Fresh a h r ns f.1)
  ]

  receiver_at-put_receiver :
      (h : ℕ) (r old : Receiver M) (ns : Buffer M)
      → receiver_at h ns ≡ some old
      → receiver_at h (put_receiver h r ns) ≡ some r
  unfolding receiver_at put_receiver
  receiver_at-put_receiver h r old [] e = absurd (some_clash old e)
  receiver_at-put_receiver h r old (n ∷ ns) e = elim (Bool-cases (n.address == h)) [
    | inl this ↦ rw (this, this)
    | inr other ↦ rw (other, other) (receiver_at-put_receiver h r old ns (sym (rw (other)) ∙ e))
  ]

  remove-later :
      (h : ℕ) (n : Node M) (ns : Buffer M) (r : Receiver M)
      → (n.address == h) ≡ false
      → receiver_at h ns ≡ some r
      → remove_handler h (n ∷ ns) ≡ some (put_receiver h n.receiver ns)
  unfolding remove_handler remove_with receiver_at
  remove-later h n ns r other e = rw (other, e, remove_with, other)

  remove-freed : (a : ℕ) (ns : Buffer M) → receiver_at a ns ≡ none → remove_handler a ns ≡ none
  unfolding remove_handler remove_with
  remove-freed a [] f = refl
  remove-freed a (n ∷ ns) f = rw (f)

  -- `remove` through a handle whose node is in the list takes one receiver from it, the handle's own; all
  -- others stay, if in another order.
  pub remove_handler-Perm :
      (h : ℕ) (ns : Buffer M) (r : Receiver M)
      → receiver_at h ns ≡ some r
      → (ns' : Buffer M) × (remove_handler h ns ≡ some ns')
        × Permᴰ (receivers ns) (r ∷ receivers ns')
  unfolding remove_handler remove_with receiver_at
  remove_handler-Perm h [] r e = absurd (some_clash r e)
  remove_handler-Perm h (n ∷ ns) r e = elim (Bool-cases (n.address == h)) [
    | inl this ↦ (
      ns,
      rw (this, remove_with, this),
      cons (some_inj n.receiver r (sym (rw (this)) ∙ e)) (Permᴰ.refl (receivers ns)),
    )
    | inr other ↦
        let e' = sym (rw (other)) ∙ e in
        (
          put_receiver h n.receiver ns,
          rw (other, e', remove_with, other),
          put_receiver-Perm h ns n.receiver r e',
        )
  ]

  -- `remove` through a handle whose node is not the first moves the first node's receiver: it is now at
  -- the node of the removed handle, and the handle that the first node belongs to points to freed
  -- memory, so that its own `remove` goes wrong.
  pub remove_handler-dangling :
      (h : ℕ) (n : Node M) (ns : Buffer M) (r : Receiver M)
      → (n.address == h) ≡ false
      → Fresh n.address ns
      → receiver_at h ns ≡ some r
      → (ns' : Buffer M) × (remove_handler h (n ∷ ns) ≡ some ns')
        × (receiver_at h ns' ≡ some n.receiver)
        × (receiver_at n.address ns' ≡ none)
        × (remove_handler n.address ns' ≡ none)
  remove_handler-dangling h n ns r other fresh e = (
    put_receiver h n.receiver ns,
    remove-later h n ns r other e,
    receiver_at-put_receiver h n.receiver r ns e,
    gone,
    remove-freed n.address (put_receiver h n.receiver ns) gone,
  )
    where
      gone : receiver_at n.address (put_receiver h n.receiver ns) ≡ none
      gone =
          receiver_at-Fresh n.address (put_receiver h n.receiver ns)
            (put_receiver-Fresh n.address h n.receiver ns fresh)
