-- ===== src/Lib.antt =====
-- Verification of dj_hyperview, a Django library that serves Hyperview templates (XML) from several
-- sources, over a cache that is shared between processes.
--
-- The parts and how they interact. A request for a template goes to the resolver
-- (src/dj_hyperview/resolver.py). It makes the name canonical (src/dj_hyperview/sources/base.py),
-- reads the generation token of the name from the cache (src/dj_hyperview/cache.py), and asks the
-- sources in order: each first through the cache, under the token, and on a cache miss itself, for
-- example the file system (src/dj_hyperview/sources/filesystem.py), after which the result is
-- published under the token. Whoever changes a template rotates the token. The lexer
-- (src/dj_hyperview/_template_lexer.py) stands in for Django's when a template is compiled and
-- bounds the work on hostile sources.
--
-- Where each part is:
--   Prelude       numbers, lists and texts; a text is the list of its code points
--   Errors        exceptions.py: exceptions as values, and methods over a state that may raise
--   Lexer         _template_lexer.py: _forward_find, _scan, _tag_spans, _unclosed_cost,
--                 _unclosed_cost_exceeds and _LinearLexer.tokenize; Lexer/Reference reads tag_re,
--                 the regular expression of Django's lexer, without any memory of past searches
--   Sources       sources/base.py: ResolvedTemplate and canonicalize_template_name;
--                 Sources/Filesystem: FileSystemSource of sources/filesystem.py
--   Cache         cache.py. Cache/Backend: the interface of Django's caches, and the constructor;
--                 Cache/Key: template_cache_key; Cache/Json and Cache/Payload: what is written and
--                 how it is read back; Cache/Generation: the tokens; Cache/Entries: reading,
--                 publishing and invalidate_templates
--   Resolver      resolver.py: TemplateResolver, its constructor in Resolver/Configuration, and in
--                 Resolver/Cacheable the attribute cacheable of sources/base.py;
--                 Resolver/Specification is the resolver without a cache, Resolver/Consistency says
--                 when a cache agrees with the sources
--   Loader        loaders.py: the snapshots that fix the templates of one render
--   Realtime      src/dj_hyperview/realtime. Subscription: the queue of hints of _subscription.py, and
--                 the loop that admits a subscription; Events: the closed envelopes of _events.py;
--                 Topics: the configuration, of _realtime_config.py and _config.py, and the channels
--                 of topics; Publisher: the clients and the circuit breaker of _publisher.py, and in
--                 Publisher/Worker the queue between the worker and its callers
--   Validation    validation.py. Declarations: the scan for DTD and entity declarations, with a
--                 reference that reads character by character; Encoding: XML_ENCODING, the names of
--                 UTF-8 and the bytes of a text; Guard: _guard_document; Limits: _check_limits;
--                 Namespaces: _check_namespace_scope; Hxml: _parse, _validate_hxml_result, the public
--                 validators and the handoff of a validated result
--   Database      contrib/database. Table: the rows of models.py and the interface of Django's ORM;
--                 Services: services.py, _identity.py and _config.py, with their specification on a map
--                 from identities to rows; Signals: signals.py and _invalidation.py, the names that a save
--                 invalidates; Source: DatabaseSource of sources.py
--   Http          http.py, _HyperviewBody. Body: the state of a response, and candidates; Commit: the
--                 checks and the steps that replace the body; Assign: content, write, writelines and
--                 the emission
--   Admin         contrib/database/admin_validation.py. Scanner: the XML state around the tokens of a
--                 template, whose fuel is the length of the text, and a reader of every character;
--                 Mask: the loop of _scan_template, whose fuel is the number of tokens; Declarations:
--                 _blank_xml_declarations, on the length of the text; Template: _scan_template
--   Tests         a backend in memory, runs, and the theorems applied to concrete inputs
--
-- State. A method of the cache is a function from the state of the world to its result and the next
-- state, so a write before an exception stays written. The state is the backend's, which may
-- be shared with other processes: IsStore asks only that a backend answers with values that were
-- written under the key, and lets it lose any of them at any time.
--
-- Bounds and fuel. Every number is a natural number, as the integers of Python are unbounded. The
-- loops of _scan and of the scan for declarations are on fuel, one more than the length of the text,
-- and those of _advance_xml_state and _blank_xml_declarations on the length of the text: a round of
-- each moves on by a character at least. The loop of _scan_template has fuel for one round a token.
-- The walk of _check_limits has fuel for the nodes
-- that are allowed, and two more. All other loops follow a list or a tree.
--
-- Interleavings. A subscription runs on an event loop, so its steps are the stretches between two
-- suspensions, and a run is any list of them: the pump, the consumer and a close in any order. The
-- publisher's targets belong to one worker thread; readings of its clock are parameters, in
-- milliseconds where the source has seconds. The queue of the publisher is shared by the worker, the
-- callers of submit and close, each of which does one step of Publisher/Worker at a time, in any order.
--
-- The databases are an interface as well, one database for each alias: IsDatabase asks that it shows its
-- rows under their identities and that a transaction which raises restores the state at its entry, and
-- IsDatabases that a statement keeps what the other aliases show; any statement may fail. The
-- transactions of the services run one after the other, in the order in which select_for_update lets
-- them have the row; what two of them do without that lock is not in the model.
--
-- Parameters, which stand for code that is not in the repository: the backend and secrets.token_hex
-- (Backend), the digest (sha256), unicodedata.category (unsafe), the file system, the decoder of
-- UTF-8 and the URI of a path (FileSystem), the sources of the application (Source), a URL as urlsplit
-- takes it apart (SplitUrl), lxml's parser (Schemas), the tokens of Django's create_token
-- (Declarations.Django, Template.Create), the classes of Python's re (Classes), the
-- table of codecs (Aliases), and Django's ORM (Databases). The registry of schemas and the markers of
-- _unused_marker are parameters, too, though they are in the repository. JSON text is represented by
-- the value that json.loads reads in it, with the pairs of an object in order, except in template_cache_key, whose text is written out.
-- PureWindowsPath.drive is read as a colon in second place; shares are refused by the test of the
-- first character.
--
-- Not modelled: the texts of exceptions and the log, reading Django's settings, the fingerprint of a
-- source (its identity is a parameter), schemas, the bulk operations of the database, its admin but for
-- the scan of a template with given markers, and the system checks.
pub mod Prelude
pub mod Lexer
pub mod Errors
pub mod Sources
pub mod Cache
pub mod Resolver
pub mod Loader
pub mod Realtime
pub mod Tests
pub mod Validation
pub mod Database
pub mod Http
pub mod Admin
