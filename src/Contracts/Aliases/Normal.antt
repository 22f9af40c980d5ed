-- ===== src/Contracts/Aliases/Normal.antt =====
-- What is left of the aliases after normalizing, and the way back from the public shape.
use relayna.Contracts.Aliases.{
  discard_aliases, Json, stringify, normalize_contract_aliases, public_output_aliases,
  ContractAliasConfig, denormalize_contract_aliases, Source, publish_aliases, is_null, alias_map,
  text, adopt_aliases, payload, publish_alias, adopt,
}
use relayna.Prelude.{
  ◌≡◌, String, All, ◌∷◌, true, arith, Bool-cases, [], false, inl, if◌then◌else◌, inr, eq_refl,
  eq_iff, Option, some, refl, none,
}
use relayna.Prelude.Dict.{Dict, pop, has, has-pop, put, has-put, get, has-eq-get, update, dict_laws}

-- No alias stands beside its canonical key.
abbrev pub Clean : Dict String → Dict Json → Type 0
Clean m d = All (λ e. has e.0 d ≡ true → has e.1 d ≡ false) m

pop-Clean : (m : Dict String) (a : String) (d : Dict Json) → Clean m d → Clean m (pop a d)
pop-Clean [] a d h = tt
pop-Clean ((c, b) ∷ m) a d h =
    (λ p. ground (arith, has-pop a c d, has-pop a b d, h.0, p), pop-Clean m a d h.1)

discard-Clean : (l m : Dict String) (d : Dict Json) → Clean l d → Clean l (discard_aliases m d)
unfolding discard_aliases
discard-Clean l [] d h = h
discard-Clean l ((c, a) ∷ m) d h = elim (Bool-cases (has c d)) [
  | inl e ↦ rw e (discard-Clean l m (pop a d) (pop-Clean l a d h))
  | inr e ↦ rw e (discard-Clean l m d h)
]

first_discarded :
    (c a : String) (d : Dict Json) → Clean ((c, a) ∷ []) (if has c d then pop a d else d)
first_discarded c a d = (λ p. ground (arith, has-pop a c d, has-pop a a d, eq_refl a, p), tt)

discarded-Clean : (m : Dict String) (d : Dict Json) → Clean m (discard_aliases m d)
unfolding discard_aliases
discarded-Clean [] d = tt
discarded-Clean ((c, a) ∷ m) d = (
  (discard-Clean ((c, a) ∷ []) m (if has c d then pop a d else d) (first_discarded c a d)).0,
  discarded-Clean m (if has c d then pop a d else d),
)

put-Clean :
    (m : Dict String) (k : String) (v : Json) (d : Dict Json)
    → has k d ≡ true
    → Clean m d
    → Clean m (put k v d)
put-Clean [] k v d here h = tt
put-Clean ((c, a) ∷ m) k v d here h = (
  λ p. grind (arith, has-put k c v d, has-put k a v d, eq_iff k c, eq_iff k a, here, h.0, p),
  put-Clean m k v d here h.1,
)

stringify-Clean :
    (str : Json → String) (m : Dict String) (o : Option Json) (d : Dict Json)
    → get "task_id" d ≡ o
    → Clean m d
    → Clean m (stringify str o d)
unfolding stringify
stringify-Clean str m none d e h = h
stringify-Clean str m (some v) d e h = elim (Bool-cases (is_null v)) [
  | inl n ↦ rw n h
  | inr n ↦
      rw n (put-Clean m "task_id" (text (str v)) d (ground (arith, has-eq-get "task_id" d, e)) h)
]

abbrev pub no_aliases : ContractAliasConfig
no_aliases = record { field_aliases = []; http_aliases = [] }

module _ (str : Json → String) (event : Dict Json) where
  -- A message that is normalized with its aliases dropped has no alias beside its canonical key,
  -- whatever the configuration, the source and the message.
  pub normalize-Clean :
      (config : Option ContractAliasConfig) (source : Source)
      → Clean (alias_map config source) (normalize_contract_aliases str event config source true)
  unfolding normalize_contract_aliases
  normalize-Clean config source =
      let m = alias_map config source in
      let d = discard_aliases m (adopt_aliases m event) in
      stringify-Clean str m (get "task_id" d) d refl (discarded-Clean m (adopt_aliases m event))

  -- The public shape of a message with a task's id.
  abbrev shown : String → Dict Json
  shown id = pop "task_id" (put "documentId" (text id) event)

  public-eq :
      (id : String)
      → get "task_id" event ≡ some (text id)
      → public_output_aliases event (some no_aliases) payload ≡ shown id
  unfolding public_output_aliases denormalize_contract_aliases publish_aliases publish_alias
      alias_map update
  public-eq id e = rw e refl

  adopted :
      (id : String)
      → adopt_aliases (alias_map (some no_aliases) payload) (shown id)
        ≡ put "task_id" (text id) (shown id)
  unfolding adopt_aliases adopt alias_map update
  adopted id = simp dict_laws

  discarded :
      (id : String)
      → discard_aliases (alias_map (some no_aliases) payload) (put "task_id" (text id) (shown id))
        ≡ pop "documentId" (put "task_id" (text id) (shown id))
  unfolding discard_aliases alias_map update
  discarded id = simp dict_laws

  -- The last step writes the id's text over itself.
  restated :
      (id : String) (d : Dict Json)
      → str (text id) ≡ id
      → get "task_id" d ≡ some (text id)
      → get "task_id" (stringify str (get "task_id" d) d) ≡ some (text id)
  unfolding stringify
  restated id d s e = rw e (simp dict_laws (simp s))

  normalized :
      (id : String)
      → str (text id) ≡ id
      → get "task_id" (normalize_contract_aliases str (shown id) (some no_aliases) payload true)
        ≡ some (text id)
  unfolding normalize_contract_aliases
  normalized id e =
      rw (adopted id, discarded id)
        (restated id (pop "documentId" (put "task_id" (text id) (shown id))) e (simp dict_laws))

  -- A task's id comes back from the public shape: what clients see as `documentId` is read as the
  -- same `task_id`, provided that `str` keeps a text as it is.
  pub normalize-public :
      (id : String)
      → str (text id) ≡ id
      → get "task_id" event ≡ some (text id)
      → let config = some no_aliases in
        let public = public_output_aliases event config payload in
        (get "task_id" public ≡ none)
        × (get "documentId" public ≡ some (text id))
        × (get "task_id" (normalize_contract_aliases str public config payload true)
            ≡ some (text id))
  normalize-public id s e = rw (public-eq id e) (simp dict_laws, simp dict_laws, normalized id s)
