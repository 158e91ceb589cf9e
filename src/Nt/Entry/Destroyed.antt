-- ===== src/Nt/Entry/Destroyed.antt =====
-- What the destructor of an entry leaves behind in the instance's publishers.
use pico_radio.Base.{
  Dict, Option, Option-cases, ap, arith, erase, false, get, get-erase, get-erase_other, get-put,
  get-put_other, inl, inr, none, number_key, put, refl, some, text_key, true, ℕ, ◌==◌, ◌>>=◌, ◌∙◌,
  ◌≡◌,
}
use pico_radio.Nt.State.{Instance, NtEnv, Publisher, server_mode}
use pico_radio.Nt.Update.{update_server_pub_meta_topic}
use pico_radio.Nt.Hybrid.{
  guarded, is_server, lock, pointer_at, touch, unlock, unpublish, unpublish_locked,
}
use pico_radio.Nt.Hybrid.NullEntries.{objects-null}
use pico_radio.Nt.KeepsTopics.{Ensures, Ensures-bind, Ensures-weaken}
use pico_radio.Nt.KeepsOwn.{own, update_server_pub_meta_topic-own}
use pico_radio.Nt.Publisher.{NtPublisher}
use pico_radio.Nt.Entry.{NtEntry, close_publisher, destroy_entry, entry_unpublish}

-- A server whose mutex is free.
abbrev Serving : Instance → Type 0
Serving s = (s.locked ≡ false) × (s.mode ≡ server_mode)

-- Without a publisher at this key, null or not there, and as before at another.
abbrev Left : ℕ → ℕ → Instance → Instance → Type 0
Left k q s s' =
    Serving s'
    × (pointer_at k s'.this.publishers ≡ none)
    × (get q s'.this.publishers ≡ get q s.this.publishers)

-- With a null pointer at this key, and as before at another.
abbrev Null : ℕ → ℕ → Instance → Instance → Type 0
Null k q s s' =
    Serving s'
    × (get k s'.this.publishers ≡ some none)
    × (get q s'.this.publishers ≡ get q s.this.publishers)

touch-lem :
    {V : Type 0} (k q : ℕ) (m : Dict ℕ (Option V))
    → (k == q) ≡ false
    → pointer_at k m ≡ none
    → (get k (touch k m) ≡ some none) × (get q (touch k m) ≡ get q m)
touch-lem k q m differ nothing = elim (Option-cases (get k m)) [
  | inl missing ↦
      let touched : touch k m ≡ put k none m = unfold touch in rw (touch, missing) in
      rw touched (get-put k none m, get-put_other k q none m differ)
  | inr (none, found) ↦
      let touched : touch k m ≡ m = unfold touch in rw (touch, found) in rw touched (found, refl)
  | inr (some v, found) ↦
      let looked : pointer_at k m ≡ some v = unfold pointer_at in rw (pointer_at, found) in
      absurd cc
]

-- With another list of the instance's own publishers.
abbrev with_publishers : Dict ℕ (Option Publisher) → Instance → Instance
with_publishers m s = record s { this = record s.this { publishers = m } }

guarded-Serving :
    (body : Instance → Option Instance) (s : Instance)
    → Serving s
    → guarded body s ≡ (do s' ← body (lock s); some (unlock s'))
unfolding guarded is_server
guarded-Serving body s (free, serving) = simp (free, serving)

unpublish-missing :
    (env : NtEnv) (k : ℕ) (s : Instance)
    → Serving s
    → pointer_at k s.this.publishers ≡ none
    → unpublish env k s ≡ some (unlock (with_publishers (touch k s.this.publishers) (lock s)))
unfolding unpublish
unpublish-missing env k s ready nothing =
    let body : unpublish_locked env k (lock s)
        ≡ some (with_publishers (touch k s.this.publishers) (lock s)) =
      unfold unpublish_locked in rw (unpublish_locked, nothing) in
    rw (guarded-Serving (unpublish_locked env k) s ready, body)

unpublish-found :
    (env : NtEnv) (k : ℕ) (p : Publisher) (s : Instance)
    → Serving s
    → pointer_at k s.this.publishers ≡ some p
    → unpublish env k s ≡ (do
      s' ← update_server_pub_meta_topic env (with_publishers (erase k s.this.publishers) (lock s))
      some (unlock s'))
unfolding unpublish
unpublish-found env k p s ready found =
    let body : unpublish_locked env k (lock s)
        ≡ update_server_pub_meta_topic env (with_publishers (erase k s.this.publishers) (lock s)) =
      unfold unpublish_locked in rw (unpublish_locked, found) in
    rw (guarded-Serving (unpublish_locked env k) s ready, body)

-- `unpublish` of a key without a publisher.
unpublish-Null :
    (env : NtEnv) (k q : ℕ) (s : Instance)
    → Serving s
    → (k == q) ≡ false
    → pointer_at k s.this.publishers ≡ none
    → Ensures (Null k q s) (unpublish env k s)
unpublish-Null env k q s ready differ nothing = rw (unpublish-missing env k s ready nothing) (
    let (null, kept) = touch-lem k q s.this.publishers differ nothing in
    ((refl, ready.1), null, kept))

unpublish-Left :
    (env : NtEnv) (k q : ℕ) (s : Instance)
    → Serving s
    → (k == q) ≡ false
    → Ensures (Left k q s) (unpublish env k s)
unpublish-Left env k q s ready differ = elim (Option-cases (pointer_at k s.this.publishers)) [
  | inl nothing ↦
      let (null, kept) = touch-lem k q s.this.publishers differ nothing in
      rw (unpublish-missing env k s ready nothing)
        ((refl, ready.1), (unfold pointer_at in rw (pointer_at, null)), kept)
  | inr (p, found) ↦
      let t = with_publishers (erase k s.this.publishers) (lock s) in
      rw (unpublish-found env k p s ready found) (
        Ensures-bind (λ s'. own s' ≡ own t) (Left k q s) (update_server_pub_meta_topic env t) _
          (update_server_pub_meta_topic-own env t)
          (λ s' kept.
            let pubs : s'.this.publishers ≡ erase k s.this.publishers = ap (λ v. v.1) kept in
            let gone : get k s'.this.publishers ≡ none = rw pubs (get-erase k s.this.publishers) in
            (
              (refl, ap (λ v. v.0) kept ∙ ready.1),
              (unfold pointer_at in rw (pointer_at, gone)),
              rw pubs (get-erase_other k q s.this.publishers differ),
            )))
]

unpublish-other :
    (env : NtEnv) (k q : ℕ) (v : Publisher) (s : Instance)
    → Serving s
    → (q == k) ≡ false
    → get k s.this.publishers ≡ some none
    → get q s.this.publishers ≡ some (some v)
    → unpublish env q s ≡ none
unfolding update_server_pub_meta_topic
unpublish-other env k q v s ready differ null known =
    let found : pointer_at q s.this.publishers ≡ some v =
      unfold pointer_at in rw (pointer_at, known) in
    let kept : get k (erase q s.this.publishers) ≡ some none =
      get-erase_other q k s.this.publishers differ ∙ null in
    rw (unpublish-found env q v s ready found, objects-null k (erase q s.this.publishers) kept)

-- The destructor of an entry that publishes calls `unpublish` twice.
destroy_entry-twice :
    (env : NtEnv) (e : NtEntry) (p : NtPublisher) (s : Instance)
    → e.publishing ≡ true
    → e.publisher ≡ some p
    → destroy_entry env e s ≡ (do s1 ← unpublish env p.pubuid s; unpublish env p.pubuid s1)
unfolding destroy_entry entry_unpublish close_publisher
destroy_entry-twice env e p s publishing has = elim (Option-cases (unpublish env p.pubuid s)) [
  | inl failed ↦ rw (publishing, has, failed)
  | inr (s1, first) ↦ elim (Option-cases (unpublish env p.pubuid s1)) [
    | inl failed ↦ rw (publishing, has, first, failed)
    | inr (s2, second) ↦ rw (publishing, has, first, second)
  ]
]

destroy_entry-Null :
    (env : NtEnv) (e : NtEntry) (p : NtPublisher) (q : ℕ) (s : Instance)
    → Serving s
    → e.publishing ≡ true
    → e.publisher ≡ some p
    → (p.pubuid == q) ≡ false
    → Ensures (Null p.pubuid q s) (destroy_entry env e s)
destroy_entry-Null env e p q s ready publishing has differ =
    rw (destroy_entry-twice env e p s publishing has) (
      Ensures-bind (Left p.pubuid q s) (Null p.pubuid q s) (unpublish env p.pubuid s) _
        (unpublish-Left env p.pubuid q s ready differ)
        (λ s1 (ready1, gone, kept).
          Ensures-weaken (Null p.pubuid q s1) (Null p.pubuid q s) (unpublish env p.pubuid s1)
            (unpublish-Null env p.pubuid q s1 ready1 differ gone)
            (λ s2 (ready2, null, kept2). (ready2, null, kept2 ∙ kept))))

-- On a server whose mutex is free, when an entry that publishes has been destroyed, destroying
-- another entry, one whose publisher the instance knows, follows a null pointer.
pub destroy_entry-destroy_entry :
    (env : NtEnv) (e other : NtEntry) (p q : NtPublisher) (v : Publisher) (s s' : Instance)
    → s.locked ≡ false
    → s.mode ≡ server_mode
    → e.publishing ≡ true
    → e.publisher ≡ some p
    → other.publishing ≡ true
    → other.publisher ≡ some q
    → (p.pubuid == q.pubuid) ≡ false
    → get q.pubuid s.this.publishers ≡ some (some v)
    → destroy_entry env e s ≡ some s'
    → destroy_entry env other s' ≡ none
destroy_entry-destroy_entry env e other p q v s s' free serving publishing has publishing' has'
      differ known destroyed =
    let left : Ensures (Null p.pubuid q.pubuid s) (destroy_entry env e s) =
      destroy_entry-Null env e p q.pubuid s (free, serving) publishing has differ in
    let (ready, null, kept) : Null p.pubuid q.pubuid s s' = rw destroyed at left in
    rw (
      destroy_entry-twice env other q s' publishing' has',
      unpublish-other env p.pubuid q.pubuid v s' ready (ground (arith, differ)) null (kept ∙ known),
    )
