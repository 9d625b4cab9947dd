-- ===== src/Client/Resilient/Keys/Sealed.antt =====
-- pkg/client/resilient_client.go: which key a part is sealed with, whatever `RenewSession` and `Close` do
-- meanwhile.
use logflux_go_sdk.Prelude.{
  ℕ, zero, suc, ◌≡◌, refl, sym, ap, ◌∙◌, subst, ◌⊎◌, inl, inr, Bool, true, false, Bool-cases, List,
  [], ◌∷◌, ◌++◌, map, Option, none, some, if◌then◌else◌, Str, length, get_elem?, All, All-append,
  ok, ok_injective, >>=-eq-ok,
}
use logflux_go_sdk.Models.{Time, LogEntry, entry_type_requires_encryption}
use logflux_go_sdk.Crypto.{Primitives, IsSound, new_encryptor}
use logflux_go_sdk.Client.Multipart.{MultipartBuilder, Part, build_part, part_body, part_of}
use logflux_go_sdk.Client.Multipart.Parts.{receive, made_sealed, made_plain, build_part-Carries}
use logflux_go_sdk.Client.Resilient.Keys.{
  Session, Cell, Delivery, Built, KeyState, cell_of, close_at, new_keys, read_pointers,
  swap_session, builder_at, KeyStep, reads, builds, swaps, begins_close, closes, KeyReach, begun,
  moved,
}

abbrev pub zeros : Str → Str
zeros key = map (λ b. 0) key

-- The key that an encryptor has: its session's, or as many zero bytes once it was closed.
abbrev pub key_of : Cell → Str
key_of c = if c.ended then zeros c.session.key else c.session.key

-- A receiver with that key reads the entry's message out of a part, whose key id, if it has one, is the
-- session's.
pub record IsSealed (p : Primitives) (compress : Bool) (b : Built) : Type 0 where
  pub key_id : (b.part.key_id ≡ none) ⊎ (b.part.key_id ≡ some b.cell.session.key_uuid)
  pub message : receive p (key_of b.cell) compress b.part ≡ some b.entry.message

abbrev IsKept : Cell → Type 0
IsKept c = c.encryptor.aes_key ≡ key_of c

abbrev Points : List Cell → ℕ → Str → Type 0
Points heap pointer uuid =
    (c : Cell) × (get_elem? heap pointer ≡ some c) × (c.session.key_uuid ≡ uuid)

record IsSafe (p : Primitives) (compress : Bool) (s : KeyState) : Type 0 where
  cells : All IsKept s.heap
  client : Points s.heap s.current s.key_uuid
  pointers : All (λ (d : Delivery). Points s.heap d.pointer d.key_uuid) s.deliveries
  built : All (IsSealed p compress) s.parts

All-get {ℓ κ} :
    {A : Type ℓ} (P : A → Type κ) (xs : List A) (i : ℕ) {x : A}
    → All P xs
    → get_elem? xs i ≡ some x
    → P x
All-get P [] i h e = cc
All-get P (y ∷ ys) zero h e = subst P (cc) h.0
All-get P (y ∷ ys) (suc i) h e = All-get P ys i h.1 e

All-map {ℓ κ μ} :
    {A : Type ℓ} (P : A → Type κ) (Q : A → Type μ) (xs : List A)
    → ((x : A) → P x → Q x)
    → All P xs
    → All Q xs
All-map P Q [] f h = tt
All-map P Q (x ∷ xs) f h = (f x h.0, All-map P Q xs f h.1)

get_elem?-append {ℓ} :
    {A : Type ℓ} (xs ys : List A) (i : ℕ) {x : A}
    → get_elem? xs i ≡ some x
    → get_elem? (xs ++ ys) i ≡ some x
get_elem?-append [] ys i h = cc
get_elem?-append (x ∷ xs) ys zero h = h
get_elem?-append (x ∷ xs) ys (suc i) h = get_elem?-append xs ys i h

get_elem?-length {ℓ} :
    {A : Type ℓ} (xs : List A) (x : A) → get_elem? (xs ++ x ∷ []) (length xs) ≡ some x
get_elem?-length [] x = refl
get_elem?-length (y ∷ ys) x = get_elem?-length ys x

zeros-zeros : (key : Str) → zeros (zeros key) ≡ zeros key
zeros-zeros [] = refl
zeros-zeros (b ∷ bs) = ap (λ xs. 0 ∷ xs) (zeros-zeros bs)

ended_alike : (ended : Bool) (key : Str) → zeros (if ended then zeros key else key) ≡ zeros key
ended_alike true key = zeros-zeros key
ended_alike false key = refl

close_at-IsKept : (cs : List Cell) (i : ℕ) → All IsKept cs → All IsKept (close_at cs i)
unfolding close_at
close_at-IsKept [] i h = tt
close_at-IsKept (c ∷ cs) zero h = (ap zeros h.0 ∙ ended_alike c.ended c.session.key, h.1)
close_at-IsKept (c ∷ cs) (suc i) h = (h.0, close_at-IsKept cs i h.1)

-- Closing an encryptor moves none and leaves their sessions.
close_at-Points :
    (cs : List Cell) (i j : ℕ) (uuid : Str) → Points cs j uuid → Points (close_at cs i) j uuid
unfolding close_at
close_at-Points [] i j uuid h = h
close_at-Points (c ∷ cs) zero zero uuid (d, e, u) =
    let same : c ≡ d = cc in (_, refl, ap (λ (x : Cell). x.session.key_uuid) same ∙ u)
close_at-Points (c ∷ cs) zero (suc j) uuid h = h
close_at-Points (c ∷ cs) (suc i) zero uuid h = h
close_at-Points (c ∷ cs) (suc i) (suc j) uuid h = close_at-Points cs i j uuid h

module _ (p : Primitives) (format : Time → Str) where
  pub build_part-key_id :
      (b : MultipartBuilder) (entry : LogEntry) (drawn : Option Str) (part : Part)
      → build_part p format b entry drawn ≡ ok part
      → (part.key_id ≡ none) ⊎ (part.key_id ≡ some b.key_uuid)
  unfolding build_part part_of
  build_part-key_id b entry drawn part h =
      let (made, hm, hp) = >>=-eq-ok (part_body p format b entry drawn) _ h in
      let id : part.key_id ≡ made.0 = ap (λ (x : Part). x.key_id) (sym (ok_injective hp)) in
      elim (Bool-cases (entry_type_requires_encryption entry.entry_type)) [
        | inl e ↦
            let (_, _, same) = made_sealed p format b entry drawn made e hm in
            inr (id ∙ sym (ap (λ (x : Option Str × Option Str × Str). x.0) same))
        | inr e ↦
            let (_, _, same) = made_plain p format b entry drawn made e hm in
            inl (id ∙ sym (ap (λ (x : Option Str × Option Str × Str). x.0) same))
      ]

  module _ (sound : IsSound p) (compress : Bool) where
    part-IsSealed :
        (d : Delivery) (c : Cell) (entry : LogEntry) (drawn : Option Str) (part : Part)
        → IsKept c
        → c.session.key_uuid ≡ d.key_uuid
        → build_part p format (builder_at compress d c.encryptor) entry drawn ≡ ok part
        → IsSealed p compress (record { part = part; entry = entry; cell = c })
    part-IsSealed d c entry drawn part kept uuid h = record {
      key_id =
          subst (λ u. (part.key_id ≡ none) ⊎ (part.key_id ≡ some u)) (sym uuid)
            (build_part-key_id (builder_at compress d c.encryptor) entry drawn part h);
      message =
          subst (λ k. receive p k compress part ≡ some entry.message) kept
            (build_part-Carries p sound format (builder_at compress d c.encryptor) entry drawn part
              h).message;
    }

    KeyStep-IsSafe :
        {s t : KeyState} → KeyStep p format compress s t → IsSafe p compress s → IsSafe p compress t
    unfolding read_pointers swap_session new_encryptor
    KeyStep-IsSafe {s = s} reads v = record {
      cells = v.cells;
      client = v.client;
      pointers = All-append _ s.deliveries _ v.pointers (v.client, tt);
      built = v.built;
    }
    KeyStep-IsSafe {s = s} (builds i d c entry drawn part hd hc h) v =
        let (c', hc', uuid) = All-get _ s.deliveries i v.pointers hd in
        let same : c' ≡ c = cc in
        record {
          cells = v.cells;
          client = v.client;
          pointers = v.pointers;
          built = All-append _ s.parts _ v.built (
            part-IsSealed d c entry drawn part (All-get _ s.heap d.pointer v.cells hc)
                (ap (λ (x : Cell). x.session.key_uuid) (sym same) ∙ uuid) h,
            tt,
          );
        }
    KeyStep-IsSafe {s = s} (swaps new) v = record {
      cells = All-append _ s.heap _ v.cells (refl, tt);
      client = (cell_of new, get_elem?-length s.heap (cell_of new), refl);
      pointers =
          All-map _ _ s.deliveries (λ d h. (h.0, get_elem?-append s.heap _ d.pointer h.1, h.2))
            v.pointers;
      built = v.built;
    }
    KeyStep-IsSafe begins_close v = record {
      cells = v.cells;
      client = v.client;
      pointers = v.pointers;
      built = v.built;
    }
    KeyStep-IsSafe {s = s} (closes before after r h) v = record {
      cells = close_at-IsKept s.heap r v.cells;
      client = close_at-Points s.heap r s.current s.key_uuid v.client;
      pointers =
          All-map _ _ s.deliveries (λ d. close_at-Points s.heap r d.pointer d.key_uuid) v.pointers;
      built = v.built;
    }

    new_keys-IsSafe : (start : Session) → IsSafe p compress (new_keys start)
    unfolding new_keys new_encryptor
    new_keys-IsSafe start = record {
      cells = (refl, tt);
      client = (cell_of start, refl, refl);
      pointers = tt;
      built = tt;
    }

    KeyReach-IsSafe :
        (start : Session) {s : KeyState}
        → KeyReach p format compress (new_keys start) s
        → IsSafe p compress s
    KeyReach-IsSafe start begun = new_keys-IsSafe start
    KeyReach-IsSafe start (moved r step) = KeyStep-IsSafe step (KeyReach-IsSafe start r)

    -- In every order of steps of the deliveries, `RenewSession` and `Close`, from a new client on: each part
    -- that is built gives its entry's message to a receiver with the key that its encryptor then has, and a
    -- key id on it is that of the encryptor's session. That key is the session's, or, if the encryptor was
    -- closed in the meantime, as many zero bytes.
    pub KeyReach-IsSealed :
        (start : Session) {s : KeyState}
        → KeyReach p format compress (new_keys start) s
        → All (IsSealed p compress) s.parts
    KeyReach-IsSealed start r = (KeyReach-IsSafe start r).built
