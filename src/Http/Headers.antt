-- ===== src/Http/Headers.antt =====
-- The list of message headers: `AppendMsgHdr` and `set_connection` keep names apart, and what a
-- search finds after them.
use ip_utils.Base.{
  ◌≡◌, refl, sym, ◌∙◌, inl, inr, Bool, true, false, false≢true, none, some, List, [], ◌∷◌, ◌++◌,
  arith, if◌then◌else◌, Bool-cases, Bool-ext, Bytes, value, strncasecmp_eq, same_name, folded,
  same_name_iff,
}
use ip_utils.ErrorHandler.{ErrorHandler}
use ip_utils.Http.{
  find_field, msg_hdr, connection_name, connection_value, update_connection, set_connection,
  append_field, MsgField, Http,
}

-- No two headers have names that a search takes for one.
abbrev pub IsUnique : List MsgField → Type 0
IsUnique [] = Unit
IsUnique (h ∷ hs) = (find_field h.field_name hs ≡ none) × IsUnique hs

-- A search sees a name up to case only.
find_field_same :
    (a b : Bytes) (hs : List MsgField) → folded a ≡ folded b → find_field a hs ≡ find_field b hs
unfolding find_field
find_field_same a b [] e = refl
find_field_same a b (h ∷ hs) e =
    let same : same_name h.field_name a ≡ same_name h.field_name b =
      Bool-ext _ _ (λ x. (same_name_iff h.field_name b).1 ((same_name_iff h.field_name a).0 x ∙ e))
        (λ x. (same_name_iff h.field_name a).1 ((same_name_iff h.field_name b).0 x ∙ sym e)) in
    rw (same, find_field_same a b hs e)

pub find_field-concat :
    (name : Bytes) (hs : List MsgField) (h : MsgField)
    → find_field name (hs ++ (h ∷ [])) ≡ elim (find_field name hs) [
      | none ↦ if same_name h.field_name name then some h else none
      | some x ↦ some x
    ]
unfolding find_field
find_field-concat name [] h = ground arith
find_field-concat name (x ∷ hs) h = ground (arith, find_field-concat name hs h)

-- A name that is taken for `b` is not taken for a name that `b` is not taken for.
same_name_apart :
    (a b c : Bytes) → same_name a b ≡ true → same_name b c ≡ false → same_name a c ≡ false
same_name_apart a b c ab bc = elim (Bool-cases (same_name a c)) [
  | inl ac ↦ absurd (
      false≢true (
        sym bc ∙ (same_name_iff b c).1 (sym ((same_name_iff a b).0 ab) ∙ (same_name_iff a c).0 ac)))
  | inr apart ↦ apart
]

update_connection_other :
    (close : Bool) (name : Bytes) (hs : List MsgField)
    → same_name connection_name name ≡ false
    → find_field name (update_connection close hs) ≡ find_field name hs
unfolding find_field update_connection
update_connection_other close name [] other = ground arith
update_connection_other close name (h ∷ hs) other =
    elim (Bool-cases (same_name h.field_name connection_name)) [
      | inl found ↦ rw (found, same_name_apart h.field_name connection_name name found other)
      | inr missed ↦ rw (missed, update_connection_other close name hs other)
    ]

update_connection_found :
    (close : Bool) (hs : List MsgField)
    → (field : MsgField) × (find_field connection_name (update_connection close hs) ≡ some field)
      × (field.field_value ≡ connection_value close)
unfolding find_field update_connection same_name strncasecmp_eq
update_connection_found close [] = (_, refl, refl)
update_connection_found close (h ∷ hs) =
    elim (Bool-cases (same_name h.field_name connection_name)) [
      | inl found ↦ (record h { field_value = connection_value close }, rw (found, found), refl)
      | inr missed ↦
          let (field, at, value) = update_connection_found close hs in
          (field, rw (missed, missed) at, value)
    ]

-- After `set_connection` a search for `Connection`, in any case, finds the new value, and a search
-- for any other name finds the value that it found before.
pub set_connection_lookup :
    (h : Http) (close : Bool) (name : Bytes)
    → (msg_hdr (set_connection h close) (some name)).field_value ≡ (
        if same_name connection_name name
        then connection_value close
        else (msg_hdr h (some name)).field_value)
unfolding set_connection msg_hdr
set_connection_lookup h close name =
    let (field, at, value) = update_connection_found close h.msg_hdrs in
    elim (Bool-cases (same_name connection_name name)) [
      | inl same ↦
          rw
            (
              same,
              ← find_field_same connection_name name (update_connection close h.msg_hdrs)
                  ((same_name_iff connection_name name).0 same),
              at,
            )
            value
      | inr other ↦ rw (other, update_connection_other close name h.msg_hdrs other)
    ]

-- A header whose name is new goes to the end of the list and raises no event: a search for its name
-- finds it, and any other search finds what it found before.
pub append_field_new :
    (h : Http) (e : ErrorHandler) (field : MsgField) (name : Bytes)
    → find_field field.field_name h.msg_hdrs ≡ none
    → ((append_field h e field).1 ≡ e)
      × (msg_hdr (append_field h e field).0 (some name)
          ≡ (if same_name field.field_name name then field else msg_hdr h (some name)))
unfolding append_field msg_hdr find_field
append_field_new h e field name new = (
  rw new,
  elim (Bool-cases (same_name field.field_name name)) [
    | inl same ↦ rw (
      new,
      same,
      find_field-concat name h.msg_hdrs field,
      ← find_field_same field.field_name name h.msg_hdrs
          ((same_name_iff field.field_name name).0 same),
      new,
      same,
    )
    | inr other ↦ rw (new, other, find_field-concat name h.msg_hdrs field) (ground arith)
  ],
)

-- One call that changes the headers.
pub data Edit : Type 0 where
  append : MsgField → Edit
  connect : Bool → Edit

pub edit : Http → ErrorHandler → List Edit → Http × ErrorHandler
edit h e [] = (h, e)
edit h e (append field ∷ es) = let (h', e') = append_field h e field in edit h' e' es
edit h e (connect close ∷ es) = edit (set_connection h close) e es
