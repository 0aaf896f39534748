-- ===== src/Resources/Available.antt =====
-- What IsResourceAvailable promises, and the numbers of megabytes (resource_monitor.go).
use background_tasks.Base.{
  ℕ, ◌<◌, ◌/◌, ◌^◌, ◌≡◌, refl, ◌⊎◌, inl, inr, ◌↔◌, pos, Bool, true, false, String, sym, ◌∙◌, subst,
  List, Time, arith, ◌≤ℤ◌,
}
use background_tasks.Task.{Float64, ResourceRequirements}
use background_tasks.Float.{FloatOps}
use background_tasks.Pool.Scale.{SystemResources}
use background_tasks.Postgres.{Answer, ok, failed, Answer-cases}
use background_tasks.Resources.{
  SystemReadings, MemoryInfo, ResourceCache, read_system, get_system_resources, is_enough,
  is_resource_available, resources_of, int64_of,
}

clash : {A : Type 0} {b : Bool} → b ≡ true → b ≡ false → A
clash h k = cc

ok_or_failed : {A : Type 0} {a : Answer A} {x : A} {e : String} → a ≡ ok x → a ≡ failed e → ⊥
ok_or_failed h k = cc

module _ (ops : FloatOps) where
  -- The resources leave room for the requirements, of which the ones that are not positive ask for
  -- nothing.
  abbrev pub Suffices : SystemResources → ResourceRequirements → Type 0
  Suffices s req =
      ((req.cpu_cores ≤ℤ pos 0) ⊎ (req.cpu_cores ≤ℤ ops.to_int s.available_cpu_cores))
      × ((req.memory_mb ≤ℤ pos 0) ⊎ (req.memory_mb ≤ℤ s.available_memory_mb))
      × (ops.lt (ops.of_int (pos 90)) s.cpu_load_percent ≡ false)
      × (ops.lt (ops.of_int (pos 90)) s.memory_used_percent ≡ false)

  is_enough_sound :
      (req : ResourceRequirements) (s : SystemResources)
      → is_enough ops req s ≡ true
      → Suffices s req
  is_enough_sound req s h = ground arith

  is_enough_complete :
      (req : ResourceRequirements) (s : SystemResources)
      → Suffices s req
      → is_enough ops req s ≡ true
  is_enough_complete req s h = ground arith

  verdict_known :
      (c : ResourceCache) (req : ResourceRequirements) (r : SystemReadings) (now later : Time)
      (s : SystemResources)
      → (get_system_resources ops c r now later).1 ≡ ok s
      → (is_resource_available ops c req r now later).1 ≡ is_enough ops req s
  unfolding is_resource_available
  verdict_known c req r now later s e = rw (e, is_resource_available) refl

  verdict_failed :
      (c : ResourceCache) (req : ResourceRequirements) (r : SystemReadings) (now later : Time)
      (msg : String)
      → (get_system_resources ops c r now later).1 ≡ failed msg
      → (is_resource_available ops c req r now later).1 ≡ false
  unfolding is_resource_available
  verdict_failed c req r now later msg e = rw (e, is_resource_available) refl

  -- IsResourceAvailable answers true exactly if the resources of the system are known and leave room
  -- for the processor cores and the memory that are asked for, at a processor load and a use of
  -- memory that are not above 90 percent. Disk space and graphics processors are not looked at.
  pub is_resource_available_iff :
      (c : ResourceCache) (req : ResourceRequirements) (r : SystemReadings) (now later : Time)
      → ((is_resource_available ops c req r now later).1 ≡ true) ↔ (
          (s : SystemResources) × ((get_system_resources ops c r now later).1 ≡ ok s)
          × Suffices s req)
  is_resource_available_iff c req r now later =
      elim (Answer-cases (get_system_resources ops c r now later).1) [
        | inl (s, e) ↦ (
          λ h. (s, e, is_enough_sound req s (sym (verdict_known c req r now later s e) ∙ h)),
          λ p.
              let same : p.0 ≡ s = cc in
              verdict_known c req r now later s e
              ∙ is_enough_complete req s (subst (λ x. Suffices x req) same p.2),
        )
        | inr (msg, e) ↦ (
          λ h. clash h (verdict_failed c req r now later msg e),
          λ p. absurd (ok_or_failed p.1 e),
        )
      ]

  small_word : (n : ℕ) → n < 2 ^ 64 → int64_of (n / 1024 / 1024) ≡ pos (n / 1048576)
  small_word n h =
      let fits : n / 1024 / 1024 < 2 ^ 63 = omega arith in
      let same : n / 1024 / 1024 ≡ n / 1048576 = omega arith in ground arith

  -- The resources can be read as soon as the processor load and the memory can, whatever the other
  -- readings do; and for numbers of bytes below 2^64 the conversion to int64 keeps the value: the
  -- megabytes are the bytes divided by 2^20.
  pub read_system_megabytes :
      (r : SystemReadings) (percent : List Float64) (mem : MemoryInfo)
      → r.cpu_percent ≡ ok percent
      → r.memory ≡ ok mem
      → mem.total < 2 ^ 64
      → mem.available < 2 ^ 64
      → (s : SystemResources) × (read_system ops r ≡ ok s)
        × (s.total_memory_mb ≡ pos (mem.total / 1048576))
        × (s.available_memory_mb ≡ pos (mem.available / 1048576))
        × (s.memory_used_percent ≡ mem.used_percent)
  unfolding read_system
  read_system_megabytes r percent mem has_cpu has_memory total available = (
    resources_of ops r percent mem,
    rw (has_cpu, has_memory, read_system) refl,
    small_word mem.total total,
    small_word mem.available available,
    refl,
  )
