-- ===== src/Lib.antt =====
-- The JavaScript packages of the BFW engine: packages/js/sdk, whose largest parts parse BPMN 2.0
-- diagrams and DMN decision models into typed models, and packages/js/client.
--
-- The program. `parseBpmn` of packages/js/sdk/src/bpmn/parser.ts checks a text, hands it to the XML
-- library and walks the ordered tree that it gets. `parseDefinitions` reads the children of the
-- definitions, `parseProcess` those of a process, and `parseFlowNode` a flow node, which for a
-- subprocess reads a whole scope inside. Three passes then run over a scope: default flows, boundary
-- event references and, for a process, compensation handlers. The engine's own parser builds its
-- lists by prepending, and the order of every list here is meant to be the same.
--
-- The files.
-- * Common and its child modules hold the shared names, lemmas on lists and association lists, and
--   the text functions of JavaScript that the program calls (trim, toUpperCase, String of a number).
-- * Json, Json.Characters and Json.Parse are the JSON values and `JSON.parse`.
-- * Xml is the ordered tree with its accessors (`elementName` is element_name, `attr` is attr, and so
--   on: a function keeps its name in this spelling), which both parsers define alike. Xml.Switch is a
--   loop over children whose body is a switch over the tag. Bpmn.Scalars reads JSON and numbers.
-- * Bpmn.Model is packages/js/sdk/src/bpmn/model.ts, with FlowNodeType of
--   packages/js/sdk/src/types/enums.ts. Bpmn.Elements holds the tables of element names.
-- * Bpmn.Leaves reads the elements with no flow node inside, Bpmn.Events the event definitions,
--   Bpmn.Build the type data of each flow node type, Bpmn.FlowNodes and Bpmn.Processes the flow nodes
--   and processes, Bpmn.Linking the passes, Bpmn.Collect the collectors that walk the whole tree.
-- * Bpmn.Doctype and Bpmn.Document are `parseBpmn` and `parseDefinitions`.
-- * The child modules of these hold their theorems. Bpmn.Formed says when a flow node is well formed.
--   Bpmn.Tests runs concrete diagrams.
-- * Dmn is packages/js/sdk/src/dmn/parser.ts: Dmn.Model its typed model (packages/js/sdk/src/dmn/model.ts),
--   Dmn.Texts and Dmn.Scalars what it reads from attributes, Dmn.Tables the decision tables,
--   Dmn.Expressions the boxed expressions, Dmn.Leaves the elements with no expression inside,
--   Dmn.Decisions the decisions and business knowledge models, Dmn.Document `parseDmn`. The local
--   variables of a loop are a record (DecisionParts, TableParts and so on), and its switch a list of
--   cases. Dmn.Tests runs a concrete model.
-- * Graphql is packages/js/client/src/graphql/query-builder.ts: Graphql.Names the spellings of names,
--   Graphql.Values the values of a filter or variable with `buildFilterInput` and `inlineJson`,
--   Graphql.Selection the selection sets, Graphql.Query the list and get queries. Graphql.Responses is
--   `buildPageInfo` and the spelling of keys in packages/js/client/src/graphql/graphql-client.ts.
--   Graphql.Tests runs concrete queries. `SelectionField`, `SortClause` and `PaginationOptions` are
--   those of packages/js/sdk/src/graphql.
-- * Errors is packages/js/client/src/errors/error-mapper.ts with the classes of
--   packages/js/sdk/src/errors: Errors.Types an error as one record with its class, Errors.Plain and
--   Errors.Detailed a function for the constructor of each class, Errors.Coercions how a field of a
--   body is read, Errors.Codes the switch over error codes and Errors.Mapper `mapResponseError`.
-- * Http.Transport is packages/js/client/src/http/transport.ts over a `fetch` that is an argument, and
--   Http.Tests runs it over a small server.
-- * Rest is packages/js/client/src/rest: Rest.Uri is `encodeURIComponent` of the language, and
--   Rest.Processes,
--   Rest.Decisions, Rest.Tasks and Rest.Events the calls of the clients, over Http.Transport.
-- * Notifications is packages/js/client/src/ws/notification-client.ts: Notifications.Phoenix lists the
--   calls of the phoenix library, Notifications.Client the state with `joinChannel`, `disconnect` and
--   the subscriptions, Notifications.Connection `connect`, and Notifications.Steps the events in the
--   life of a client. Notifications.Tests runs it over a library that writes down its calls.
--
-- How state is modelled. The program updates nodes in place; here a pass is a function from a process
-- to a process, which is the same since no two nodes share an object that a pass changes. The
-- module's counter of generated association ids is an argument and a result. A `Map` is an
-- association list in which a later `set` replaces the value. `null` is `none`.
-- The notification client is a record that its operations take and return, beside the state of the
-- socket library. An asynchronous method is cut where it waits: `connect` at the token and at the
-- opening of the socket, a subscription at the join of its channel. A life of the client is any list
-- of calls and continuations.
--
-- Bounds and fuel. The tree is a data type, so that every walk over it is structural recursion, and
-- no fuel is needed. The search for comments and CDATA sections skips the characters of a section by
-- a count, one at a time. Integers are exact, where a JavaScript number rounds past 2^53, and decimal
-- numbers are kept as the numerals that are read. The numbers of a query are integers, names in a
-- query are ASCII, and no key of a filter is `__proto__`.
--
-- Not modelled. The XML library (fast-xml-parser) is a parameter of `parse_bpmn` and `parse_dmn`: its
-- validator is any function, and its parser any that gives a tree or throws. The socket library (phoenix)
-- is a parameter as well, any record of operations on a state of its own, of which the theorem on `connect`
-- supposes that it no longer calls a callback that was taken off; the token that `connect` awaits is an
-- input, and a
-- timeout is a natural number of milliseconds or Infinity. Upper case is that of ASCII letters. The
-- numbers of a response body are integers. The rest of the GraphQL client, the list of timer schedules,
-- the facade that puts the clients together and the type declarations that the parsers do not use are
-- left out, and so is the engine itself, which is written in Elixir.
pub mod Bpmn
pub mod Common
pub mod Dmn
pub mod Errors
pub mod Graphql
pub mod Http
pub mod Json
pub mod Notifications
pub mod Rest
pub mod Xml
