-- ===== src/Lib.antt =====
-- The core of Structor, a plugin that recovers structure types in a disassembler's database.
--
-- The program collects accesses to memory, infers the types of values with a lattice that it also
-- encodes for an SMT solver, lays the fields out with checked offset arithmetic and packing rules,
-- consults a model of the calling conventions for argument locations, and writes the result to the
-- host's database inside transactions that it can roll back. The parts modelled here are those that
-- hold this logic and do not themselves walk the host's data:
--
--   Types        src/z3/type_lattice.cpp, include/structor/z3/type_lattice.hpp
--     Base         BaseType and its utilities
--     Inferred     InferredType, its size and operator==
--     Subtype      TypeLattice::is_subtype; Rules has the order as a relation, Shapes, Trans and
--                  Antisym its laws
--     Lattice      TypeLattice with its two caches: lub, glb, are_compatible, widen_to_size; Spec has
--                  the structural join and meet, Memo the caches' coherence, Laws the bounds
--     Solver       TypeLatticeEncoder on integers
--     Bitvector    BitvectorTypeEncoder on 32-bit vectors
--   Storage      include/structor/synth_types.hpp, include/structor/persistence_invariants.hpp
--     Offset       the checked_* functions on offsets and byte ranges, alignment
--     Packing      canonical_packing_cap, effective_alignment_for_packing, ida_udt_pack_code
--   Abi          include/structor/z3/calling_convention_model.hpp
--     (itself)     select_calling_convention
--     Locations    fixed_x64_parameter_locations; Placement, Assignment and Microsoft its result
--   Host         the transactions on the host's database and the life cycle of its callbacks
--     Journal      PersistenceTransactionJournal, include/structor/persistence_transaction.hpp
--     Lifecycle    HostHookLifecycle, include/structor/host_lifecycle.hpp
--     Tinfo        include/structor/global_tinfo_transaction.hpp: Policy has
--                  GlobalTinfoTransactionState, Database the host's functions and the snapshot, Tinfo
--                  itself apply_global_tinfo_transaction_detailed
--   Analysis     what is observed of an object, and the index of registrations
--     Evidence     FieldAccess, its class, merge and order, include/structor/synth_types.hpp; Merge and
--                  Order its laws
--     Pattern      AccessPattern::add_access, the same header
--     Alternatives mandatory_union_alternative_excess, src/synthesis/layout_synthesizer.cpp
--     RewriteIndex GlobalRewriteIndex, include/structor/global_rewrite_index.hpp
--   Solving      the parts of the constraint building that call no solver
--     Signature    map_signature_arguments, include/structor/z3/signature_argument_map.hpp
--     Interner     ExactTypeVariableInterner, include/structor/z3/type_variable_identity.hpp
--     Unions       include/structor/z3/union_constraints.hpp; Counts the budget, Limits and Groups the
--                  constraints of the groups
--     Tracker      ConstraintTracker, src/z3/constraint_tracker.cpp; Aligned while only solvers are
--                  used, Misaligned after a constraint for an optimizer
--   Algorithms   include/structor/optimized_algorithms.hpp
--     Overlaps     find_overlapping_pairs and detect_overlaps; Keys, Active, Order and Sweep follow the
--                  sweep, Pairs the pairs that it reports, Quadratic the other branch, Ranges both
--     Gcd          binary_gcd and gcd_array; Divides for divisors, Halving for the loops, Binary for
--                  the whole
--     Chunks       parallel_for_chunks and partition_for_parallel
--     Coverage     compute_coverage_map
--   Containers   include/structor/optimized_containers.hpp
--     UnionFind    FlatUnionFind; Forest for find, Partition and Sequence for unite, Closure for
--                  sequences of unions
--
-- An access is merged into the alternatives of its range (Evidence, Alternatives); the ranges that
-- overlap become constraints (Overlaps, Unions), which the tracker remembers by number (Tracker).
--
-- Numbers are unbounded naturals; where the code's width matters the bound is written out, as in
-- `% 2 ^ 32` for a size and in the checks of the offset functions. A possibly null pointer to a child
-- type is `Child`. State is passed explicitly: `lub` and `glb` take and return the lattice with its
-- caches and statistics, the journal's and the life cycle's operations their object, and the global
-- type transaction the state of the database, whose functions are a parameter (`HostDatabase`). An
-- exception of the host is a value that each call may return. `std::sort` is an insertion sort. A
-- `std::unordered_map` is an association list or, where only lookups are made, the function from keys
-- to what they find; hashing selects buckets and is left out. A solver expression is read by its value
-- under an assignment. What the host answers about a type is a record of functions (`TypeQueries`).
--
-- The recursion of `is_subtype`, `lub` and `glb` is on fuel. `is_subtype` gets one more than the
-- nodes of both types together and the others one more than those of the left type; each call goes
-- to children, and the equivalences with the relation `Sub` and with `join` and `meet`, which have no
-- fuel, hold for all types. The loops of `binary_gcd` get one more than the number that each halves or
-- lessens, that of `partition_for_parallel` one more than the count, and `find` any number above the
-- height of the forest, which the number of unions bounds; the theorems say, with the bounds that
-- they need, that they end.
--
-- Not modelled: the conversions between InferredType and the host's types, hashing and printing, the
-- creation of solver sorts and variables, the memory management of the containers and the interval
-- tree, hash set and radix sort, which nothing in the program calls, and the parts of the program
-- that walk the host's decompiler output, drive the solver or draw its views.
pub mod Prelude
pub mod Types
pub mod Storage
pub mod Abi
pub mod Host
pub mod Analysis
pub mod Solving
pub mod Algorithms
pub mod Containers
