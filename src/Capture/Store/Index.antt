-- ===== src/Capture/Store/Index.antt =====
-- The index of a store against its entries.
use tlscope_rs.Base.{
  ℕ, ◌≡◌, ◌≢◌, refl, ◌∙◌, sym, ap, ◌⊎◌, inl, inr, ◌↔◌, List, [], ◌∷◌, ◌++◌, Option, none, some,
  arith, if◌then◌else◌, is_empty,
}
use tlscope_rs.Base.Order.{nat_ord, text_ord}
use tlscope_rs.Text.{Text, to_ascii_lowercase}
use tlscope_rs.Capture.Entry.{TrafficEntry}
use tlscope_rs.Capture.SortedVec.{insert_sorted_unique}
use tlscope_rs.Capture.SortedVec.Search.{IsSorted}
use tlscope_rs.Capture.SortedVec.Insert.{Occurs, insert_sorted_unique_lem}
use tlscope_rs.Capture.Store.{
  FilterIndex, TrafficStore, media_type, insert_content_type, insert_status, insert_entry, push,
  clear, default_store, empty_index,
}

-- Some entry of the list has the property.
abbrev pub Any : {A : Type 0} → (A → Type 0) → List A → Type 0
Any P [] = ⊥
Any P (x ∷ xs) = P x ⊎ Any P xs

Any-snoc :
    {A : Type 0} (P : A → Type 0) (xs : List A) (x : A) → Any P (xs ++ x ∷ []) ↔ (P x ⊎ Any P xs)
Any-snoc P [] x = (λ h. h, λ h. h)
Any-snoc P (y ∷ xs) x =
    let ih : Any P (xs ++ x ∷ []) ↔ (P x ⊎ Any P xs) = Any-snoc P xs x in
    (λ h. ground (arith, ih), λ h. ground (arith, ih))

-- A header value names the content type.
abbrev pub Names : Text → Option Text → Type 0
Names t none = ⊥
Names t (some raw) = (media_type raw ≡ t) × (t ≢ [])

abbrev pub HasType : Text → TrafficEntry → Type 0
HasType t e = Names t e.request_body.content_type ⊎ Names t e.response_body.content_type

-- The index holds what the entries have, each value once and in order.
pub record Indexes (es : List TrafficEntry) (i : FilterIndex) : Type 0 where
  pub hosts_sorted : IsSorted text_ord i.hosts
  pub statuses_sorted : IsSorted nat_ord i.statuses
  pub content_types_sorted : IsSorted text_ord i.content_types
  pub hosts_exact : (h : Text) → Occurs h i.hosts ↔ Any (λ e. to_ascii_lowercase e.host ≡ h) es
  pub statuses_exact : (n : ℕ) → Occurs n i.statuses ↔ Any (λ e. e.response_status ≡ some n) es
  pub content_types_exact : (t : Text) → Occurs t i.content_types ↔ Any (HasType t) es

map_right : {A B C : Type 0} → (B → C) → A ⊎ B → A ⊎ C
map_right f (inl a) = inl a
map_right f (inr b) = inr (f b)

iff_trans : {A B C : Type 0} → A ↔ B → B ↔ C → A ↔ C
iff_trans p q = (λ a. q.0 (p.0 a), λ c. p.1 (q.1 c))

some_iff : (k n : ℕ) (P : Type 0) → ((k ≡ n) ⊎ P) ↔ ((some k ≡ some n) ⊎ P)
some_iff k n P =
    (elim [ inl h ↦ inl (ap some h) | inr h ↦ inr h ], elim [ inl h ↦ inl (cc) | inr h ↦ inr h ])

named_iff :
    (raw : Text) (c : ℕ) (m t : Text) (P : Type 0)
    → media_type raw ≡ c ∷ m
    → ((c ∷ m ≡ t) ⊎ P) ↔ (Names t (some raw) ⊎ P)
named_iff raw c m t P e = (
  elim [ inl h ↦ inl (e ∙ h, λ z. cc) | inr h ↦ inr h ],
  elim [ inl h ↦ inl (sym e ∙ h.0) | inr h ↦ inr h ],
)

insert_content_type_lem :
    (xs : List Text) (o : Option Text)
    → IsSorted text_ord xs
    → IsSorted text_ord (insert_content_type xs o)
      × ((t : Text) → Occurs t (insert_content_type xs o) ↔ (Names t o ⊎ Occurs t xs))
unfolding insert_content_type
insert_content_type_lem xs none s = (s, λ t. (λ h. inr h, λ h. ground arith))
insert_content_type_lem xs (some raw) s = go (media_type raw) refl
  where
    go :
        (m : Text)
        → media_type raw ≡ m
        → IsSorted text_ord (if is_empty m then xs else insert_sorted_unique text_ord xs m)
          × ((t : Text)
              → Occurs t (if is_empty m then xs else insert_sorted_unique text_ord xs m)
                ↔ (Names t (some raw) ⊎ Occurs t xs))
    go [] e = (s, λ t. (λ h. inr h, λ h. ground arith))
    go (c ∷ m) e =
        let (p, q) = insert_sorted_unique_lem text_ord xs (c ∷ m) s in
        (
          p,
          λ t.
              let (there, back) = named_iff raw c m t (Occurs t xs) e in
              (λ h. there ((q t).0 h), λ h. (q t).1 (back h)),
        )

insert_status_lem :
    (xs : List ℕ) (o : Option ℕ)
    → IsSorted nat_ord xs
    → IsSorted nat_ord (insert_status xs o)
      × ((n : ℕ) → Occurs n (insert_status xs o) ↔ ((o ≡ some n) ⊎ Occurs n xs))
unfolding insert_status
insert_status_lem xs none s = (s, λ n. (λ h. inr h, λ h. ground arith))
insert_status_lem xs (some k) s =
    let (p, q) = insert_sorted_unique_lem nat_ord xs k s in
    (p, λ n. iff_trans (q n) (some_iff k n (Occurs n xs)))

push_iff : {N O A S P : Type 0} → N ↔ (P ⊎ O) → O ↔ A → S ↔ (P ⊎ A) → N ↔ S
push_iff {N} {O} {A} {S} {P} n o s =
    (λ h. s.1 (map_right o.0 (n.0 h)), λ h. n.1 (map_right o.1 (s.0 h)))

twice_iff : {N M O P Q : Type 0} → N ↔ (Q ⊎ M) → M ↔ (P ⊎ O) → N ↔ ((P ⊎ Q) ⊎ O)
twice_iff {N} {M} {O} {P} {Q} n m =
    (λ h. regroup (map_right m.0 (n.0 h)), λ h. n.1 (map_right m.1 (spread h)))
  where
    regroup : Q ⊎ (P ⊎ O) → (P ⊎ Q) ⊎ O
    regroup (inl q) = inl (inr q)
    regroup (inr (inl p)) = inl (inl p)
    regroup (inr (inr o)) = inr o

    spread : (P ⊎ Q) ⊎ O → Q ⊎ (P ⊎ O)
    spread (inl (inl p)) = inr (inl p)
    spread (inl (inr q)) = inl q
    spread (inr o) = inr (inr o)

insert_entry-Indexes :
    (es : List TrafficEntry) (i : FilterIndex) (e : TrafficEntry)
    → Indexes es i
    → Indexes (es ++ e ∷ []) (insert_entry i e)
unfolding insert_entry
insert_entry-Indexes es i e v =
    let (hs, hx) =
      insert_sorted_unique_lem text_ord i.hosts (to_ascii_lowercase e.host) v.hosts_sorted in
    let (ss, sx) = insert_status_lem i.statuses e.response_status v.statuses_sorted in
    let (qs, qx) =
      insert_content_type_lem i.content_types e.request_body.content_type v.content_types_sorted in
    let (rs, rx) =
      insert_content_type_lem (insert_content_type i.content_types e.request_body.content_type)
        e.response_body.content_type qs in
    record {
      hosts_sorted = hs;
      statuses_sorted = ss;
      content_types_sorted = rs;
      hosts_exact = λ h. push_iff (hx h) (v.hosts_exact h) (Any-snoc _ es e);
      statuses_exact = λ n. push_iff (sx n) (v.statuses_exact n) (Any-snoc _ es e);
      content_types_exact =
          λ t. push_iff (twice_iff (rx t) (qx t)) (v.content_types_exact t) (Any-snoc _ es e);
    }

-- What callers do to a store.
pub data Operation : Type 0 where
  pushes : TrafficEntry → Operation
  clears : Operation

unfoldable pub apply : TrafficStore → Operation → TrafficStore
apply s (pushes e) = push s e
apply s clears = clear s

unfoldable pub run : TrafficStore → List Operation → TrafficStore
unfolding apply
run s [] = s
run s (o ∷ os) = run (apply s o) os

pub empty-Indexes : Indexes [] empty_index
unfolding empty_index
empty-Indexes = record {
  hosts_sorted = tt;
  statuses_sorted = tt;
  content_types_sorted = tt;
  hosts_exact = λ _. (λ h. h, λ h. h);
  statuses_exact = λ _. (λ h. h, λ h. h);
  content_types_exact = λ _. (λ h. h, λ h. h);
}

pub push-Indexes :
    (s : TrafficStore) (e : TrafficEntry)
    → Indexes s.entries s.filter_index
    → Indexes (push s e).entries (push s e).filter_index
unfolding push
push-Indexes s e v = insert_entry-Indexes s.entries s.filter_index e v

apply-Indexes :
    (s : TrafficStore) (o : Operation)
    → Indexes s.entries s.filter_index
    → Indexes (apply s o).entries (apply s o).filter_index
unfolding apply push clear
apply-Indexes s (pushes e) v = push-Indexes s e v
apply-Indexes s clears v = empty-Indexes

run_from-Indexes :
    (s : TrafficStore) (os : List Operation)
    → Indexes s.entries s.filter_index
    → Indexes (run s os).entries (run s os).filter_index
unfolding run
run_from-Indexes s [] v = v
run_from-Indexes s (o ∷ os) v = run_from-Indexes (apply s o) os (apply-Indexes s o v)

-- After any sequence of pushes and clears each list of the index is sorted without duplicates, and
-- holds exactly the lower-cased hosts, the response statuses and the content types without
-- parameters (of requests and responses, the empty one left out) of the entries in the store.
pub run-Indexes :
    (os : List Operation)
    → Indexes (run default_store os).entries (run default_store os).filter_index
unfolding default_store
run-Indexes os = run_from-Indexes _ os empty-Indexes
