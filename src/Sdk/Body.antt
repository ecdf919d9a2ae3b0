-- ===== src/Sdk/Body.antt =====
-- sdk/machine.go against api/types.go: what the server reads from the body that Start sends.
use Prim.Native.String.{String}
use gitvm.Base.{
  ◌≡◌, refl, sym, ◌∙◌, false, Option, none, some, [], ℤ, pos, arith, if◌then◌else◌, ◌==◌,
  is_positive, string_comparable, Bool-cases, inl, inr,
}
use gitvm.Base.Table.{Table, lookup, lookup-insert, lookup-insert_self}
use gitvm.Orchestrator.Calls.{CreateRequest}
use gitvm.Api.Handlers.{create_request}
use gitvm.Sdk.Client.{
  Fields, text, number, texts, with_text, with_positive, with_texts, text_at, text_or, number_at,
}
use gitvm.Sdk.Machine.{GitVmConfig, start_body}
use gitvm.Sdk.Host.{texts_at, requested}

abbrev pub kept : ℤ → ℤ
kept n = if is_positive n then n else pos 0

abbrev pub texts_or_empty : Option (Table String String) → Table String String
texts_or_empty none = []
texts_or_empty (some t) = t

-- The request that a configuration stands for.
abbrev pub wanted : GitVmConfig → CreateRequest
wanted c = record {
  template = c.template;
  vcpus = kept c.vcpus;
  memory_mb = kept c.memory_mb;
  timeout = kept c.timeout;
  metadata = texts_or_empty c.metadata;
  env_vars = texts_or_empty c.env_vars;
}

module _ (j name : String) (fields : Fields) where
  with_text-other :
      (s : String) → (name == j) ≡ false → lookup j (with_text name s fields) ≡ lookup j fields
  unfolding with_text
  with_text-other s other = ground (arith, lookup-insert name j (text s) fields)

  with_positive-other :
      (n : ℤ) → (name == j) ≡ false → lookup j (with_positive name n fields) ≡ lookup j fields
  unfolding with_positive
  with_positive-other n other = ground (arith, lookup-insert name j (number n) fields)

  with_texts-other :
      (t : Option (Table String String))
      → (name == j) ≡ false
      → lookup j (with_texts name t fields) ≡ lookup j fields
  unfolding with_texts
  with_texts-other none other = refl
  with_texts-other (some t) other = ground (arith, lookup-insert name j (texts t) fields)

module _ (name : String) (fields : Fields) where
  text_at-with_text :
      (s : String)
      → lookup name fields ≡ none
      → text_or "" (text_at name (with_text name s fields)) ≡ s
  unfolding text_at with_text
  text_at-with_text s fresh = elim (Bool-cases (s == "")) [
    | inl blank ↦
        rw (blank, with_text, fresh, text_at) (sym ((string_comparable.same_iff s "").0 blank))
    | inr filled ↦ rw (filled, with_text, lookup-insert_self name (text s) fields, text_at) refl
  ]

  number_at-with_positive :
      (n : ℤ) → lookup name fields ≡ none → number_at name (with_positive name n fields) ≡ kept n
  unfolding number_at with_positive
  number_at-with_positive n fresh = elim (Bool-cases (is_positive n)) [
    | inl more ↦ rw (more, with_positive, lookup-insert_self name (number n) fields, number_at) refl
    | inr less ↦ rw (less, with_positive, fresh, number_at) refl
  ]

  texts_at-with_texts :
      (t : Option (Table String String))
      → lookup name fields ≡ none
      → texts_at name (with_texts name t fields) ≡ texts_or_empty t
  unfolding with_texts
  texts_at-with_texts none fresh = rw (fresh, texts_at) refl
  texts_at-with_texts (some t) fresh = rw (lookup-insert_self name (texts t) fields, texts_at) refl

-- The body of Start, as it grows.
module _ (c : GitVmConfig) where
  abbrev first : Fields
  first = with_text "template" c.template []

  abbrev second : Fields
  second = with_positive "vcpus" c.vcpus first

  abbrev third : Fields
  third = with_positive "memoryMB" c.memory_mb second

  abbrev fourth : Fields
  fourth = with_positive "timeout" c.timeout third

  abbrev fifth : Fields
  fifth = with_texts "envVars" c.env_vars fourth

  first-none : (j : String) → ("template" == j) ≡ false → lookup j first ≡ none
  unfolding lookup
  first-none j n = with_text-other j "template" [] c.template n

  second-first : (j : String) → ("vcpus" == j) ≡ false → lookup j second ≡ lookup j first
  second-first j n = with_positive-other j "vcpus" first c.vcpus n

  third-second : (j : String) → ("memoryMB" == j) ≡ false → lookup j third ≡ lookup j second
  third-second j n = with_positive-other j "memoryMB" second c.memory_mb n

  fourth-third : (j : String) → ("timeout" == j) ≡ false → lookup j fourth ≡ lookup j third
  fourth-third j n = with_positive-other j "timeout" third c.timeout n

  fourth-first :
      (j : String)
      → ("vcpus" == j) ≡ false
      → ("memoryMB" == j) ≡ false
      → ("timeout" == j) ≡ false
      → lookup j fourth ≡ lookup j first
  fourth-first j n m t = fourth-third j t ∙ third-second j m ∙ second-first j n

  body-fourth :
      (j : String)
      → ("envVars" == j) ≡ false
      → ("metadata" == j) ≡ false
      → lookup j (start_body c) ≡ lookup j fourth
  unfolding start_body
  body-fourth j n m =
      with_texts-other j "metadata" fifth c.metadata m
      ∙ with_texts-other j "envVars" fourth c.env_vars n

  read_template : text_or "" (text_at "template" (start_body c)) ≡ c.template
  unfolding text_at lookup
  read_template =
      rw (body-fourth "template" refl refl, fourth-first "template" refl refl refl, text_at)
        (text_at-with_text "template" [] c.template refl)

  read_vcpus : number_at "vcpus" (start_body c) ≡ kept c.vcpus
  unfolding number_at
  read_vcpus =
      rw
        (
          body-fourth "vcpus" refl refl,
          fourth-third "vcpus" refl,
          third-second "vcpus" refl,
          number_at,
        )
        (number_at-with_positive "vcpus" first c.vcpus (first-none "vcpus" refl))

  read_memory : number_at "memoryMB" (start_body c) ≡ kept c.memory_mb
  unfolding number_at
  read_memory =
      rw (body-fourth "memoryMB" refl refl, fourth-third "memoryMB" refl, number_at)
        (number_at-with_positive "memoryMB" second c.memory_mb
          (second-first "memoryMB" refl ∙ first-none "memoryMB" refl))

  read_timeout : number_at "timeout" (start_body c) ≡ kept c.timeout
  unfolding number_at
  read_timeout =
      rw (body-fourth "timeout" refl refl, number_at)
        (number_at-with_positive "timeout" third c.timeout
          (third-second "timeout" refl ∙ second-first "timeout" refl ∙ first-none "timeout" refl))

  read_env_vars : texts_at "envVars" (start_body c) ≡ texts_or_empty c.env_vars
  unfolding start_body
  read_env_vars =
      rw (with_texts-other "envVars" "metadata" fifth c.metadata refl, texts_at)
        (texts_at-with_texts "envVars" fourth c.env_vars
          (fourth-first "envVars" refl refl refl ∙ first-none "envVars" refl))

  read_metadata : texts_at "metadata" (start_body c) ≡ texts_or_empty c.metadata
  unfolding start_body
  read_metadata = texts_at-with_texts "metadata" fifth c.metadata (
      with_texts-other "metadata" "envVars" fourth c.env_vars refl
      ∙ fourth-first "metadata" refl refl refl
      ∙ first-none "metadata" refl)

  pub requested-start_body : create_request (requested (start_body c)) ≡ wanted c
  unfolding create_request
  requested-start_body =
      rw (read_template, read_vcpus, read_memory, read_timeout, read_env_vars, read_metadata) refl
