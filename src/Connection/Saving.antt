-- ===== src/Connection/Saving.antt =====
-- What `Save` leaves, and that `Load` reads it.
use agent_community.Common.{
  ◌≡◌, refl, ap, ◌∙◌, ◌⊎◌, inl, inr, String, true, none, some, eq_refl, arith, Bool-cases,
  Option-cases,
}
use agent_community.Connection.{
  Connection, Network, valid_name, validate, stored, Files, ConnectionError, already_exists,
  invalid_connection, not_exist, is_at, put_file, save, loaded, not_loaded, loaded_from, load,
  delete,
}

validate-names :
    (network : Network) (c : Connection)
    → validate network c ≡ true
    → (valid_name c.name ≡ true) × (valid_name c.community_name ≡ true)
unfolding validate
validate-names network c h = (ground (arith, h), ground (arith, h))

-- What a connection that was saved leaves.
pub record IsSaved (network : Network) (c : Connection) (before after : Files) : Type 0 where
  pub valid : validate network c ≡ true
  pub new : before c.community_name c.name ≡ none
  pub loads : load network c.community_name c.name after ≡ loaded c
  pub others :
      (community_name name : String)
      → (after community_name name ≡ before community_name name)
        ⊎ (is_at c.community_name c.name community_name name ≡ true)
  pub again : save network c after ≡ (some already_exists, after)
  pub deleted :
      load network c.community_name c.name (delete c.community_name c.name after).1
      ≡ not_loaded not_exist

module _ (network : Network) (c : Connection) (files : Files)
    (valid : validate network c ≡ true) where
  abbrev saved : Files
  saved = put_file c.community_name c.name (some (stored c)) files

  there : saved c.community_name c.name ≡ some (stored c)
  there = rw (eq_refl c.community_name, eq_refl c.name) refl

  loads_saved : load network c.community_name c.name saved ≡ loaded c
  unfolding load
  loads_saved =
      let (name_fits, community_fits) = validate-names network c valid in
      rw (community_fits, name_fits)
        (ap (loaded_from network c.community_name c.name) there
          ∙ rw (valid, eq_refl c.community_name, eq_refl c.name) refl)

  others_kept :
      (community_name name : String)
      → (saved community_name name ≡ files community_name name)
        ⊎ (is_at c.community_name c.name community_name name ≡ true)
  others_kept community_name name =
      elim (Bool-cases (is_at c.community_name c.name community_name name)) [
        | inl same ↦ inr same
        | inr differ ↦ inl (rw differ refl)
      ]

  again_refused : save network c saved ≡ (some already_exists, saved)
  unfolding save
  again_refused = rw (valid, there) refl

  gone :
      load network c.community_name c.name (delete c.community_name c.name saved).1
      ≡ not_loaded not_exist
  unfolding load delete
  gone =
      let (name_fits, community_fits) = validate-names network c valid in
      rw (community_fits, name_fits, eq_refl c.community_name, eq_refl c.name) refl

-- Every outcome of `Save`. An error changes nothing. A success saves a valid connection where there
-- was none: `Load` gives it back, no other file is changed, a second `Save` is refused, and after
-- `Delete` there is none to load.
pub save_outcome :
    (network : Network) (c : Connection) (files : Files)
    → let a = save network c files in
      ((a.0 ≡ none) × IsSaved network c files a.1)
      ⊎ ((e : ConnectionError) × (a.0 ≡ some e) × (a.1 ≡ files))
unfolding save
save_outcome network c files = elim (Bool-cases (validate network c)) [
  | inl valid ↦ elim (Option-cases (files c.community_name c.name)) [
    | inl new ↦
        rw (valid, new)
          (inl (
            refl,
            record {
              valid = valid;
              new = new;
              loads = loads_saved network c files valid;
              others = others_kept network c files valid;
              again = again_refused network c files valid;
              deleted = gone network c files valid;
            },
          ))
    | inr (f, here) ↦ rw (valid, here) (inr (already_exists, refl, refl))
  ]
  | inr invalid ↦ rw invalid (inr (invalid_connection, refl, refl))
]
