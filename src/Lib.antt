-- ===== src/Lib.antt =====
-- A verification library of prisma_sdwan_mcp, an MCP server through which an assistant reads a
-- Prisma SD-WAN controller and runs display commands on its ION devices over SSH. All paths are
-- below prisma_sdwan_mcp/, from the repository's root, unless they begin with verification/.
--
-- The parts of the program and where they are modelled:
-- * cli/policy.py, which commands may run on a device: Cli/Policy. Its regular expressions are
--   values of the pattern type of Re, with the matcher `ends`, which lists the texts that can be left
--   behind a match in the order in which Python's engine tries them; Re/Language has that
--   language and relates it to the matcher.
-- * cli/ssh.py, one SSH session: Cli/Ssh has `_truncate_output`; Cli/Ssh/Output has the reading of
--   an output to completion, with prompt, pages and the device's errors; Cli/Ssh/Session has the
--   arguments of the connection and the classes of errors; Cli/Ssh/Execute has `_command_result`
--   and `execute_commands`. Cli/Ssh/Order and Cli/Ssh/Sent follow the connections and the texts that
--   are sent through the state of the world.
-- * cli/redact.py, secrets in a command's output: Cli/Redact.
-- * cli/address.py, from an element's name to the address for SSH: Cli/Address.
-- * tools/cli.py, the tool `run_commands`, which joins the parts above in a fixed order: Cli/Run,
--   with what it replies in Cli/Reply and the JSON object of a reply in Cli/Rendered. `decided`,
--   `with_credentials`, `choose_target` and `with_settings` are the steps between its early
--   returns.
-- * resolver.py, from a name to the controller's record: Resolver. What it asks of the catalog and
--   the executor is the parameter `Services`; the helpers for records and texts are in
--   Resolver/Records.
-- * catalog.py and models.py, the actions that may be called: Catalog. The catalog is the list of its
--   actions, in the order of the dictionary; Catalog/Files loads it from the values of its files, and
--   `load` adds entries that are given as ActionSpec.
-- * executor.py, from an action and its arguments to a call of the SDK: Executor/Paths and
--   Executor/Body check the arguments, Executor/Binding makes the calls that are tried, and
--   Executor/Dispatch has `execute`; the SDK and the schema validator are parameters.
-- * safety.py, the redaction of every controller's answer: Safety, on the JSON values of Value.
-- * client.py, the calls of the controller's API with login, retries and waits: Client, over the
--   parameter `World`: the SDK, the clocks, sleep and jitter. Times are in milliseconds. What
--   becomes of a response is in Client/Extract.
-- * response.py, what a tool returns: Response has the error object, Response/Json the JSON text,
--   Response/Compact the compaction of records, where a set of keys is a list, in the order in which
--   the keys occur, and Response/Outline the outline of an object. Response/Base64 and Response/Loads
--   are what the cursors use of base64 and json, Response/Cursor the cursors, Response/Envelope
--   `_payload`, `_identity` and the loop under the budget of bytes, and Response/Collection
--   `collection_json` and `single_json`.
-- * tools/common.py, what the tools share: Common and Tools. A tool is a function on the log of the
--   calls of `execute`: `Step` is what a part of it adds to the log and returns or raises, and
--   `try_tool` makes an exception the reply. The record `Toolbox` has the answers of the executor and
--   the resolver's services, which may depend on the log, and what a reply takes from outside.
-- * tools/domains.py, a domain for each tool: Tools/Domains has the steps that its tools share, and
--   its children the nine tools. tools/core.py, tools/monitoring.py, tools/policies_security.py,
--   tools/discovery.py, tools/routing_diagnostics.py and tools/config_gen.py: Tools/Core,
--   Tools/Monitoring, Tools/Policies, Tools/Discovery, Tools/Routing and Tools/SiteConfig, one file
--   for each tool or group of helpers. Tools/Calls says what a step or a tool adds to the log, and
--   Tools/Live runs the calls of a log on the executor over the client. Response/Shape and
--   Tools/Shape say what a reply holds.
-- * config.py, the settings: Config, over an environment that is a parameter.
-- * the exceptions of catalog.py, executor.py and resolver.py: Errors.
--
-- Code that raises is modelled with Result; an exception is a constructor that holds the values which
-- the code puts into its message, or the name of a class and a text where the code reads these. Code
-- that acts on the world passes a state on: an arbitrary type whose meaning the parameters give.
--
-- Fuel and bounds: `attempts` of Client counts the rounds of the loop, which are MAX_ATTEMPTS in the
-- code; `pages` of Cli/Ssh/Output counts the pages that may still be asked for, MAX_PAGINATION_PAGES
-- in the code, and raises at the end as the code does; the matcher of Re and the substitutions bound
-- their rounds by the length of the text, since each round uses up a character; `decimal` of Resolver
-- has one round more than the number, which has fewer digits.
-- Response/Loads bounds its rounds by the length of the text; a walk over the pages of a listing has
-- one round more than there are records.
--
-- Not modelled: str.lower and \d beyond ASCII (\w is the parameter `is_word` where the code uses
-- it); the limit on the digits that int() reads; texts with lone surrogates, which cannot be
-- encoded; the lock, the log and the .env file; Netmiko, Paramiko, the network and the SDK, which
-- are parameters. A file of the catalog is the value that json or yaml makes of it, or missing; an
-- id, an SDK call or a domain's name in it that is not a text is taken for a TypeError. In a reply
-- the time stamp is one parameter, and Python's `str` of a list, an object or an exception is
-- another. datetime is the parameter Calendar of Tools/Monitoring/Window, `int` of a float is
-- `truncate`, and the schema's validator and the YAML writer are parameters of Tools/SiteConfig. A
-- cursor's bytes that json.loads would read in another encoding than UTF-8, and a version 3.0, are
-- refused. A key of an object that is not made of Unicode scalar values becomes U+0000
-- (Value/Names). The calls that the resolver makes for a tool are not in the tool's log.
-- Registration with FastMCP, prompts and resources are glue.
pub mod Prelude
pub mod Config
pub mod Re
pub mod Catalog
pub mod Cli
pub mod Executor
pub mod Response
pub mod Common
pub mod Tools
pub mod Value
pub mod Safety
pub mod Errors
pub mod Resolver
pub mod Client
