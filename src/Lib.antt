-- ===== src/Lib.antt =====
-- Verification of the programs in crates/feature-flag and platform-services that decide things: the
-- rules of the janitor bot with their condition language, and the feature flags, from the
-- configuration that the server accepts to the answer that a client gets.
--
-- The janitor bot (platform-services/janitor-bot/src/rules/expr.rs) reads a rule's condition from a
-- text, and evaluates it over variables. Expr.Syntax has its values, tokens, expressions and errors;
-- Expr.Lex is `tokenize`, Expr.Parse is `Parser` and `parse`, Expr.Eval is `cmp_values`, `eval` and
-- `referenced_vars`. What the standard library does with characters that are not of ASCII, and with
-- the text of a float, is the parameter `Std`.
--
-- The feature flags: Flags.Model and Flags.Equal are the data model of
-- crates/feature-flag/feature-flag-engine (model.rs, engine/types.rs), Flags.Engine is the engine
-- (engine/mod.rs), Flags.Wire has the messages of feature-flag-proto, and Flags.Convert is the
-- conversion (convert/mod.rs, convert/types.rs). Flags.Json stands for `serde_json::Value`, with the
-- numbers of that library as the parameter `Numbers`; `Libraries` adds the crates regex and sha2.
-- Flags.Validate is what the store checks before it writes, Flags.Plan the changes that it plans, and
-- Flags.Names the texts that it keeps (platform-services/feature-flags/src/store/mod.rs,
-- store/types.rs). Flags.Manager is the live snapshot of the server and what it publishes (snapshot.rs),
-- Flags.Remote and Flags.Bulk are the handlers of the evaluation service (grpc/evaluation.rs), behind the
-- test for the client's name; Flags.Local is the client's evaluation in its own process
-- (feature-flag-client/src/local.rs) and Flags.Client the client in both modes (lib.rs). The server
-- decodes a configuration, checks it, publishes snapshots of it, and both the server and the client
-- evaluate a snapshot by the same engine.
--
-- The rules of the janitor bot (platform-services/janitor-bot/src/rules, src/event): Rules.Types,
-- Rules.Texts, Rules.Requires and Rules.Schema are the configuration (matchers/types.rs, schema.rs),
-- Rules.Event the events, what a webhook becomes, and the variables of templates (event/types.rs,
-- event/mod.rs). Rules.Clients has what an evaluation asks of the world, and its state: the caches and
-- the world, an abstract type that each call of a client may change. Rules.Cache is what is fetched
-- (matchers/cache.rs), Rules.Leaf the evaluation of one condition and Rules.Match that of a matcher
-- (matchers/mod.rs). Rules.Resolve, Rules.Sort and Rules.Run are the orchestrator (rules/mod.rs): the
-- resolution of named checks, `topo_sort`, the loops over rules and groups, the log, and in
-- Rules.Run.Entry the entry points. A panic is `none`. One evaluation is modelled at a time: others, and
-- the locks between them, are part of the world. What an action does (rules/actions.rs) is a parameter.
-- Rules.Command is the reader of the commands in comments (command.rs), with the white space of
-- Unicode as a parameter; what carries them out is not modelled.
--
-- Maps are association lists (Prelude.Assoc), floats are their bit patterns (Prelude.Float), and an
-- `i64` is an integer whose range is checked where the source checks it (Prelude.Int). Sums of `u32`
-- wrap around. Recursion that is not structural takes fuel: `tokenize` the number of characters and
-- one more, the parser sixteen units for each token and sixteen more (a token costs at most the seven
-- calls that lead to it and those of the loops), `evaluate` one unit for each flag and one more (a flag
-- is entered only if it is not being evaluated), the resolution of checks one unit for each named check
-- and one more (a check is entered only if it is not being resolved), and the loop of `topo_sort` one
-- for each rule.
--
-- Not modelled: the statements of SQL, the calls of Redis, gRPC, HTTP, the forge and Kubernetes, the
-- tasks that wait for them, and the other programs of the repository.
pub mod Prelude
pub mod Expr
pub mod Flags
pub mod Rules
